-- ===== src/Evals/Compare/Tallied.antt =====
-- The last part of compare in compare.py, where it finds no fault.
use test_analyst_agent.Common.{
  String, Bool, true, not, ◌≡◌, ap, ◌∙◌, Option, none, some, List, [], ◌∷◌, map, keep, get, is_some,
  Memᴰ, Mem-keep, sorted_set, is_in-sorted_set, inl, inr, Bool-cases,
}
use mathlib.Core.List.Memᴰ
use mathlib.Core.Path.{subst}
use test_analyst_agent.Evals.Compare.Values.{Floats, Mismatch}
use test_analyst_agent.Evals.Compare.Tables.{map_some}
use test_analyst_agent.Evals.Compare.Naming.{Bucket}
use test_analyst_agent.Evals.Compare.Buckets.{Comparison, row_name}
use test_analyst_agent.Evals.Compare.Verdict.{
  keys_of, keys_with, keys_without, measure_mismatch, key_mismatches, present, flatten, is_empty,
  tally,
}
use test_analyst_agent.Evals.Compare.Steps.{
  and_then-some, map_some-Mem, is_in-Mem, Mem-is_in, get-is_in, some_inj, all_four,
}

module _ (F : Floats) where
  open F use {Float}

  no_names : (x : String) (xs : List String) → is_empty F (map row_name xs) ≡ true → Memᴰ x xs → ⊥
  no_names x [] h m = Memᴰ.not-nil m
  no_names x (y ∷ ys) h m = cc

  Mem-set :
      (f : String → Bool) (k : String) (ks : List String)
      → Memᴰ k ks
      → f k ≡ true
      → Memᴰ k (sorted_set (keep f ks))
  Mem-set f k ks m h =
      is_in-Mem k (sorted_set (keep f ks))
        (is_in-sorted_set k (keep f ks) ∙ Mem-is_in k (keep f ks) (Mem-keep f k ks m h))

  get-Mem : (k : String) (b : Bucket F) → is_some (get k b) ≡ true → Memᴰ k (keys_of F b)
  get-Mem k b h = is_in-Mem k (keys_of F b) (get-is_in k b h)

  -- Where no key of the rows is without a partner, each has one.
  covered :
      (b others : Bucket F) (k : String)
      → is_empty F (map row_name (keys_without F b others)) ≡ true
      → is_some (get k b) ≡ true
      → is_some (get k others) ≡ true
  covered b others k h there = elim (Bool-cases (is_some (get k others))) [
    | inl e ↦ e
    | inr e ↦ absurd (
        no_names k (keys_without F b others) h (
          Mem-set (λ j. not (is_some (get j others))) k (keys_of F b) (get-Mem k b there)
            (ap not e)))
  ]

  present-none :
      (o : Option (Mismatch F)) (os : List (Option (Mismatch F)))
      → is_empty F (present F os) ≡ true
      → Memᴰ o os
      → o ≡ none
  present-none o [] h m = absurd (Memᴰ.not-nil m)
  present-none o (none ∷ os) h m = elim (Memᴰ.cases_cons m) [
    | inl e ↦ e
    | inr r ↦ present-none o os h r
  ]
  present-none o (some x ∷ os) h m = cc

  Mem-flatten :
      (o : Option (Mismatch F)) (os : List (Option (Mismatch F)))
      (oss : List (List (Option (Mismatch F))))
      → Memᴰ o os
      → Memᴰ os oss
      → Memᴰ o (flatten F oss)
  Mem-flatten o os [] m n = absurd (Memᴰ.not-nil n)
  Mem-flatten o os (xs ∷ oss) m n = elim (Memᴰ.cases_cons n) [
    | inl e ↦ Memᴰ.append_left (flatten F oss) (subst (Memᴰ o) e m)
    | inr r ↦ Memᴰ.append_right xs (Mem-flatten o os oss m r)
  ]

  pub record Tallied (tolerance : Float) (measures : List String) (b b' : Bucket F) : Type 0 where
    pub covers : (k : String) → is_some (get k b) ≡ true → is_some (get k b') ≡ true
    pub adds_none : (k : String) → is_some (get k b') ≡ true → is_some (get k b) ≡ true
    pub agrees :
        (k c : String)
        → is_some (get k b) ≡ true
        → Memᴰ c measures
        → measure_mismatch F tolerance b b' k c ≡ some none

  key_agrees :
      (tolerance : Float) (measures : List String) (b b' : Bucket F)
      (found : List (List (Option (Mismatch F)))) (k c : String)
      → map_some (key_mismatches F tolerance b b' measures) (keys_with F b b') ≡ some found
      → is_empty F (present F (flatten F found)) ≡ true
      → is_some (get k b) ≡ true
      → is_some (get k b') ≡ true
      → Memᴰ c measures
      → measure_mismatch F tolerance b b' k c ≡ some none
  key_agrees tolerance measures b b' found k c h clean here there m =
      let common = Mem-set (λ j. is_some (get j b')) k (keys_of F b) (get-Mem k b here) there in
      let (os, e, in_found) =
        map_some-Mem (key_mismatches F tolerance b b' measures) k (keys_with F b b') found h
          common in
      let (o, e', in_os) = map_some-Mem (measure_mismatch F tolerance b b' k) c measures os e m in
      e' ∙ ap some (present-none o (flatten F found) clean (Mem-flatten o os found in_os in_found))

  pub tally-Tallied :
      (tolerance : Float) (measures : List String) (b b' : Bucket F) (r c : Comparison F)
      → tally F tolerance measures b b' r ≡ some c
      → c.ok ≡ true
      → Tallied tolerance measures b b'
  tally-Tallied tolerance measures b b' r c h ok =
      let (found, e, e') =
        and_then-some (map_some (key_mismatches F tolerance b b' measures) (keys_with F b b')) _ c
          h in
      let (no_missing, no_extra, no_mismatch) =
        all_four r.ok (is_empty F (map row_name (keys_without F b b')))
          (is_empty F (map row_name (keys_without F b' b)))
          (is_empty F (present F (flatten F found)))
          (ap (λ (x : Comparison F). x.ok) (some_inj _ c e') ∙ ok) in
      record {
        covers = λ k here. covered b b' k no_missing here;
        adds_none = λ k there. covered b' b k no_extra there;
        agrees = λ k m here in_measures.
            key_agrees tolerance measures b b' found k m e no_mismatch here
              (covered b b' k no_missing here) in_measures;
      }
