-- ===== src/Evals/Dataset/Subsets.antt =====
-- The subsets of a Dataset that load_dataset of dataset.py returned, and when it returns one.
use test_analyst_agent.Common.{
  ℕ, Bool, true, false, not, ◌≡◌, refl, ap, some, List, [], ◌∷◌, ◌++◌, All, arith, keep, codes,
}
use mathlib.Core.List.{append-nil}
use test_analyst_agent.Evals.Dataset.{
  Question, prefix, sealed, open_of, sealed_of, load_dataset, loaded,
}
use test_analyst_agent.Evals.Dataset.Valid.{Found, Sound, load_dataset-Split}

keep-append :
    (f : Question → Bool) (xs ys : List Question) → keep f (xs ++ ys) ≡ keep f xs ++ keep f ys
keep-append f [] ys = refl
keep-append f (x ∷ xs) ys = ground (arith, keep-append f xs ys)

starts_apart :
    (cs : List ℕ) → prefix (codes "open-") cs ≡ true → prefix (codes "sealed-") cs ≡ false
starts_apart [] h = refl
starts_apart (c ∷ cs) h = ground arith

is_open : (q : Question) → Sound "open-" q → sealed q ≡ false
is_open q s = starts_apart (codes q.id) s.of_subset

kept_sealed : (qs : List Question) → All (Sound "sealed-") qs → sealed_of qs ≡ qs
kept_sealed [] s = refl
kept_sealed (q ∷ qs) (s, ss) = rw s.of_subset (ap (λ l. q ∷ l) (kept_sealed qs ss))

kept_open : (qs : List Question) → All (Sound "open-") qs → (sealed_of qs ≡ []) × (open_of qs ≡ qs)
kept_open [] s = (refl, refl)
kept_open (q ∷ qs) (s, ss) = let (a, b) = kept_open qs ss in rw (is_open q s) (a, ap (λ l. q ∷ l) b)

none_open : (qs : List Question) → All (Sound "sealed-") qs → open_of qs ≡ []
none_open [] s = refl
none_open (q ∷ qs) (s, ss) = rw s.of_subset (none_open qs ss)

-- What load_dataset promises of a set that it returns.
pub record Promised (open_files sealed_files qs : List Question) : Type 0 where
  pub open_part : open_of qs ≡ open_files
  pub sealed_part : sealed_of qs ≡ sealed_files
  pub sound_open : All (Sound "open-") open_files
  pub sound_sealed : All (Sound "sealed-") sealed_files
  pub found : Found qs

-- When load_dataset returns a set of questions, its open and its sealed questions are the files of the two
-- directories in their order, every one is consistent and has the prefix of its directory, and by_id
-- gives every question back under its id.
pub load_dataset-Promised :
    (open_files sealed_files qs : List Question)
    → load_dataset (some open_files) (some sealed_files) ≡ loaded qs
    → Promised open_files sealed_files qs
load_dataset-Promised open_files sealed_files qs h =
    let s = load_dataset-Split open_files sealed_files qs h in
    let (a, b) = kept_open open_files s.sound_open in
    record {
      open_part = rw s.all_there (
          rw (keep-append (λ q. not (sealed q)) open_files sealed_files)
            (rw b (rw (none_open sealed_files s.sound_sealed) (append-nil open_files))));
      sealed_part = rw s.all_there (
          rw (keep-append sealed open_files sealed_files)
            (rw a (kept_sealed sealed_files s.sound_sealed)));
      sound_open = s.sound_open;
      sound_sealed = s.sound_sealed;
      found = s.found;
    }
