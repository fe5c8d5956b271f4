-- ===== src/Evals/Dataset/Valid.antt =====
-- load_dataset of dataset.py where it raises nothing: what each question is, and where it is found.
use test_analyst_agent.Common.{
  String, Bool, true, false, not, ◌≡◌, refl, sym, ap, ◌∙◌, Option, none, some, List, [], ◌∷◌, ◌++◌,
  Memᴰ, All, find, find-append, find-add, eq_iff, is_some, arith, inl, inr,
}
use mathlib.Core.List.Memᴰ
use mathlib.Core.List.{append-nil, append_assoc}
use mathlib.Core.Path.{subst}
use test_analyst_agent.Evals.Dataset.{
  Question, DatasetError, question_error, question_key, starts_with, file_error, read_files,
  load_dataset, Loaded, loaded, broken, go_on, first_error, unless, stop_on,
}

-- Every question is found under its id.
abbrev pub Found : List Question → Type 0
Found qs = (q : Question) → Memᴰ q qs → find question_key q.id qs ≡ some q

-- A file that is not refused.
pub record Sound (subset : String) (q : Question) : Type 0 where
  pub consistent : question_error q ≡ none
  pub of_subset : starts_with subset q.id ≡ true

loaded_inj : (a b : List Question) → loaded a ≡ loaded b → a ≡ b
loaded_inj a b h = cc

first_error-none : (a b : Option DatasetError) → first_error a b ≡ none → (a ≡ none) × (b ≡ none)
first_error-none none b h = (refl, h)
first_error-none (some a) b h = cc

unless-none :
    (good : Bool) (e : DatasetError) (rest : Option DatasetError)
    → unless good e rest ≡ none
    → (good ≡ true) × (rest ≡ none)
unless-none true e rest h = (refl, h)
unless-none false e rest h = cc

is_new : (o : Option Question) → not (is_some o) ≡ true → o ≡ none
is_new none h = refl
is_new (some q) h = cc

file_error-none :
    (subset : String) (before : List Question) (q : Question)
    → file_error subset before q ≡ none
    → Sound subset q × (find question_key q.id before ≡ none)
file_error-none subset before q h =
    let (a, b) = first_error-none (question_error q) _ h in
    let (c, d) = unless-none (starts_with subset q.id) _ _ b in
    let (e, f) = unless-none (not (is_some (find question_key q.id before))) _ _ d in
    (record { consistent = a; of_subset = c }, is_new (find question_key q.id before) e)

stop_on-loaded :
    (o : Option DatasetError) (r : Loaded) (qs : List Question)
    → stop_on o r ≡ loaded qs
    → (o ≡ none) × (r ≡ loaded qs)
stop_on-loaded none r qs h = (refl, h)
stop_on-loaded (some e) r qs h = cc

-- What the files of one subset add.
pub record Added (subset : String) (qs before after : List Question) : Type 0 where
  pub grown : after ≡ before ++ qs
  pub sound : All (Sound subset) qs
  pub found : Found before → Found after

Found-add :
    (q : Question) (before : List Question)
    → find question_key q.id before ≡ none
    → Found before
    → Found (before ++ q ∷ [])
Found-add q before new h p m = elim (Memᴰ.append_cases before m) [
  | inl old ↦ rw find-append (rw (h p old))
  | inr fresh ↦ elim (Memᴰ.cases_cons fresh) [
    | inl same ↦
        rw same (rw (find-add question_key q.id q before new) (ground (arith, eq_iff q.id q.id)))
    | inr nowhere ↦ absurd (Memᴰ.not-nil nowhere)
  ]
]

read_files-Added :
    (subset : String) (qs before after : List Question)
    → read_files subset qs before ≡ loaded after
    → Added subset qs before after
unfolding read_files
read_files-Added subset [] before after h =
    let same = loaded_inj before after h in
    record {
      grown = sym same ∙ sym (append-nil before);
      sound = tt;
      found = λ f. subst Found same f;
    }
read_files-Added subset (q ∷ qs) before after h =
    let (k, h') = stop_on-loaded (file_error subset before q) _ after h in
    let (s, new) = file_error-none subset before q k in
    let rest = read_files-Added subset qs (before ++ q ∷ []) after h' in
    record {
      grown = rest.grown ∙ append_assoc before (q ∷ []) qs;
      sound = (s, rest.sound);
      found = λ f. rest.found (Found-add q before new f);
    }

-- What the two directories hold, when they are loaded.
pub record Split (open_files sealed_files qs : List Question) : Type 0 where
  pub all_there : qs ≡ open_files ++ sealed_files
  pub sound_open : All (Sound "open-") open_files
  pub sound_sealed : All (Sound "sealed-") sealed_files
  pub found : Found qs

Found-nil : Found []
Found-nil q m = absurd (Memᴰ.not-nil m)

go_on-loaded :
    (r : Loaded) (f : List Question → Loaded) (qs : List Question)
    → go_on r f ≡ loaded qs
    → (before : List Question) × (r ≡ loaded before) × (f before ≡ loaded qs)
go_on-loaded (loaded before) f qs h = (before, refl, h)
go_on-loaded (broken e) f qs h = cc

-- A set of questions that loads is the two directories' files one after the other.
pub load_dataset-Split :
    (open_files sealed_files qs : List Question)
    → load_dataset (some open_files) (some sealed_files) ≡ loaded qs
    → Split open_files sealed_files qs
unfolding load_dataset
load_dataset-Split open_files sealed_files qs h =
    let (before, first, second) = go_on-loaded (read_files "open-" open_files []) _ qs h in
    let a = read_files-Added "open-" open_files [] before first in
    let b = read_files-Added "sealed-" sealed_files before qs second in
    record {
      all_there = b.grown ∙ ap (λ l. l ++ sealed_files) a.grown;
      sound_open = a.sound;
      sound_sealed = b.sound;
      found = b.found (a.found Found-nil);
    }
