-- ===== src/Common/Sorted.antt =====
-- sorted(xs, key=...) of Python, by a text.
use Prim.Native.Nat.{Ordering}
use Prim.Native.String.{String, compare}
use mathlib.Core.Bool.{Bool, true, false}
use mathlib.Core.Logic.{inl, inr}
use mathlib.Core.List.{List, [], ◌∷◌}
use mathlib.Core.List.{Memᴰ}
use mathlib.Core.List.Memᴰ
use test_analyst_agent.Common.Tests.{if◌then◌else◌, Bool-cases}

before : String → String → Bool
before a b = elim (compare a b) [ Ordering.lt ↦ true | _ ↦ false ]

module _ {ℓ} {A : Type ℓ} (key : A → String) where
  insert_by : A → List A → List A
  unfolding before
  insert_by x [] = x ∷ []
  insert_by x (y ∷ ys) =
      let rest = insert_by x ys in if before (key y) (key x) then y ∷ rest else x ∷ y ∷ ys

  unfoldable pub sort_by : List A → List A
  unfolding insert_by
  sort_by [] = []
  sort_by (x ∷ xs) = insert_by x (sort_by xs)

  Mem-insert_by : (z x : A) (ys : List A) → Memᴰ z (insert_by x ys) → Memᴰ z (x ∷ ys)
  unfolding insert_by
  Mem-insert_by z x [] m = m
  Mem-insert_by z x (y ∷ ys) m = elim (Bool-cases (before (key y) (key x))) [
    | inl e ↦ elim (Memᴰ.cases_cons (rw e at m)) [
      | inl same ↦ Memᴰ.tail (Memᴰ.head same)
      | inr rest ↦ elim (Memᴰ.cases_cons (Mem-insert_by z x ys rest)) [
        | inl same ↦ Memᴰ.head same
        | inr there ↦ Memᴰ.tail (Memᴰ.tail there)
      ]
    ]
    | inr e ↦ rw e at m
  ]

  -- Sorting adds nothing.
  pub Mem-sort_by : (z : A) (xs : List A) → Memᴰ z (sort_by xs) → Memᴰ z xs
  unfolding sort_by
  Mem-sort_by z [] m = m
  Mem-sort_by z (x ∷ xs) m = elim (Memᴰ.cases_cons (Mem-insert_by z x (sort_by xs) m)) [
    | inl same ↦ Memᴰ.head same
    | inr rest ↦ Memᴰ.tail (Mem-sort_by z xs rest)
  ]
