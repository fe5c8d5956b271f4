-- ===== src/Evals/Dataset/Complete.antt =====
-- When load_dataset of dataset.py raises nothing.
use test_analyst_agent.Common.{
  String, false, ◌≡◌, refl, sym, ap, ◌∙◌, none, some, List, [], ◌∷◌, ◌++◌, All, find, find-add,
  str_eq,
}
use mathlib.Core.List.{append-nil, append_assoc}
use test_analyst_agent.Evals.Dataset.{
  Question, question_key, file_error, read_files, load_dataset, loaded,
}
use test_analyst_agent.Evals.Dataset.Valid.{Sound}

-- No question of a list is found under another list's ids.
abbrev Apart : List Question → List Question → Type 0
Apart qs before = All (λ q. find question_key q.id before ≡ none) qs

-- No id is in use twice.
abbrev pub Distinct : List Question → Type 0
Distinct [] = Unit
Distinct (q ∷ qs) = All (λ r. str_eq q.id r.id ≡ false) qs × Distinct qs

Apart-add :
    (q : Question) (qs before : List Question)
    → find question_key q.id before ≡ none
    → All (λ r. str_eq q.id r.id ≡ false) qs
    → Apart qs before
    → Apart qs (before ++ q ∷ [])
Apart-add q [] before new d a = tt
Apart-add q (r ∷ qs) before new (d, ds) (a, as') =
    (rw (find-add question_key r.id q before new) (rw d a), Apart-add q qs before new ds as')

Apart-cons :
    (q : Question) (qs before : List Question)
    → All (λ r. str_eq q.id r.id ≡ false) qs
    → Apart qs before
    → Apart qs (q ∷ before)
unfolding find
Apart-cons q [] before d a = tt
Apart-cons q (r ∷ qs) before (d, ds) (a, as') = (rw d a, Apart-cons q qs before ds as')

Apart-nil : (qs : List Question) → Apart qs []
unfolding find
Apart-nil [] = tt
Apart-nil (q ∷ qs) = (refl, Apart-nil qs)

All-append :
    (P : Question → Type 0) (xs ys : List Question) → All P (xs ++ ys) → All P xs × All P ys
All-append P [] ys a = (tt, a)
All-append P (x ∷ xs) ys (a, as') = let (b, c) = All-append P xs ys as' in ((a, b), c)

Distinct-append :
    (xs ys : List Question) → Distinct (xs ++ ys) → Distinct xs × Distinct ys × Apart ys xs
Distinct-append [] ys d = (tt, d, Apart-nil ys)
Distinct-append (x ∷ xs) ys (d, ds) =
    let (a, b, c) = Distinct-append xs ys ds in
    let (e, f) = All-append (λ r. str_eq x.id r.id ≡ false) xs ys d in
    ((e, a), b, Apart-cons x ys xs f c)

file_error-accepts :
    (subset : String) (before : List Question) (q : Question)
    → Sound subset q
    → find question_key q.id before ≡ none
    → file_error subset before q ≡ none
file_error-accepts subset before q s new = rw s.consistent (rw s.of_subset (rw new refl))

read_files-accepts :
    (subset : String) (qs before : List Question)
    → All (Sound subset) qs
    → Distinct qs
    → Apart qs before
    → read_files subset qs before ≡ loaded (before ++ qs)
unfolding read_files
read_files-accepts subset [] before s d a = ap loaded (sym (append-nil before))
read_files-accepts subset (q ∷ qs) before (s, ss) (d, ds) (a, as') =
    rw (file_error-accepts subset before q s a) (
      read_files-accepts subset qs (before ++ q ∷ []) ss ds (Apart-add q qs before a d as')
      ∙ ap loaded (append_assoc before (q ∷ []) qs))

-- Where both directories exist, every file of them is consistent and has the prefix of its directory,
-- and no id is in use twice, load_dataset returns the open and then the sealed questions.
pub load_dataset-accepts :
    (open_files sealed_files : List Question)
    → All (Sound "open-") open_files
    → All (Sound "sealed-") sealed_files
    → Distinct (open_files ++ sealed_files)
    → load_dataset (some open_files) (some sealed_files) ≡ loaded (open_files ++ sealed_files)
unfolding load_dataset
load_dataset-accepts open_files sealed_files s t d =
    let (a, b, c) = Distinct-append open_files sealed_files d in
    rw (read_files-accepts "open-" open_files [] s a (Apart-nil open_files))
      (read_files-accepts "sealed-" sealed_files open_files t b c)
