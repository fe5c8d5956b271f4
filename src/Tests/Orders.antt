-- ===== src/Tests/Orders.antt =====
-- An order of rows that meets the laws of `OrderBy`: insertion.
use test_analyst_agent.Common.{ℕ, ◌≤◌, List, [], ◌∷◌, Memᴰ, All, OrderBy, arith, inl, inr, ◌⊎◌, ◌↔◌}
use mathlib.Core.List.Memᴰ
use native.Mathlib.Decide.{dec_lt}

module _ {A : Type 0} (R : A → A → Type 0) (total : (x y : A) → R x y ⊎ R y x) where
  abbrev Sorted : List A → Type 0
  Sorted [] = Unit
  Sorted (x ∷ xs) = All (R x) xs × Sorted xs

  placed : (x y : A) → R x y ⊎ R y x → List A → List A → List A
  placed x y (inl _) ys rest = x ∷ y ∷ ys
  placed x y (inr _) ys rest = y ∷ rest

  insert : A → List A → List A
  unfolding placed
  insert x [] = x ∷ []
  insert x (y ∷ ys) = placed x y (total x y) ys (insert x ys)

  unfoldable pub sort : List A → List A
  unfolding insert
  sort [] = []
  sort (x ∷ xs) = insert x (sort xs)

  placed-Mem :
      (z x y : A) (o : R x y ⊎ R y x) (ys rest : List A)
      → Memᴰ z rest ↔ Memᴰ z (x ∷ ys)
      → Memᴰ z (placed x y o ys rest) ↔ Memᴰ z (x ∷ y ∷ ys)
  unfolding placed
  placed-Mem z x y (inl _) ys rest h = (λ m. m, λ m. m)
  placed-Mem z x y (inr _) ys rest h = (
    λ m. elim (Memᴰ.cases_cons m) [
      | inl e ↦ Memᴰ.tail (Memᴰ.head e)
      | inr r ↦ elim (Memᴰ.cases_cons (h.0 r)) [
        | inl e ↦ Memᴰ.head e
        | inr t ↦ Memᴰ.tail (Memᴰ.tail t)
      ]
    ],
    λ m. elim (Memᴰ.cases_cons m) [
      | inl e ↦ Memᴰ.tail (h.1 (Memᴰ.head e))
      | inr r ↦ elim (Memᴰ.cases_cons r) [
        | inl e ↦ Memᴰ.head e
        | inr t ↦ Memᴰ.tail (h.1 (Memᴰ.tail t))
      ]
    ],
  )

  insert-Mem : (z x : A) (ys : List A) → Memᴰ z (insert x ys) ↔ Memᴰ z (x ∷ ys)
  unfolding insert
  insert-Mem z x [] = (λ m. m, λ m. m)
  insert-Mem z x (y ∷ ys) = placed-Mem z x y (total x y) ys (insert x ys) (insert-Mem z x ys)

  pub sort-Mem : (z : A) (xs : List A) → Memᴰ z (sort xs) ↔ Memᴰ z xs
  unfolding sort
  sort-Mem z [] = (λ m. m, λ m. m)
  sort-Mem z (x ∷ xs) = (
    λ m. elim (Memᴰ.cases_cons ((insert-Mem z x (sort xs)).0 m)) [
      | inl e ↦ Memᴰ.head e
      | inr r ↦ Memᴰ.tail ((sort-Mem z xs).0 r)
    ],
    λ m. (insert-Mem z x (sort xs)).1 (elim (Memᴰ.cases_cons m) [
      | inl e ↦ Memᴰ.head e
      | inr r ↦ Memᴰ.tail ((sort-Mem z xs).1 r)
    ]),
  )

  module _ (trans : (x y z : A) → R x y → R y z → R x z) where
    All-below : (x y : A) (ys : List A) → R x y → All (R y) ys → All (R x) ys
    All-below x y [] r a = tt
    All-below x y (z ∷ zs) r (b, a) = (trans x y z r b, All-below x y zs r a)

    All-insert : (x y : A) (ys : List A) → R y x → All (R y) ys → All (R y) (insert x ys)
    unfolding insert placed
    All-insert x y [] r a = (r, tt)
    All-insert x y (z ∷ zs) r (b, a) =
        elim (total x z) as (λ o. All (R y) (placed x z o zs (insert x zs))) [
          | inl _ ↦ (r, (b, a))
          | inr _ ↦ (b, All-insert x y zs r a)
        ]

    insert-Sorted : (x : A) (ys : List A) → Sorted ys → Sorted (insert x ys)
    unfolding insert placed
    insert-Sorted x [] s = (tt, tt)
    insert-Sorted x (y ∷ ys) (a, s) =
        elim (total x y) as (λ o. Sorted (placed x y o ys (insert x ys))) [
          | inl le ↦ ((le, All-below x y ys le a), (a, s))
          | inr ge ↦ (All-insert x y ys ge a, insert-Sorted x ys s)
        ]

    pub sort-Sorted : (xs : List A) → Sorted (sort xs)
    unfolding sort
    sort-Sorted [] = tt
    sort-Sorted (x ∷ xs) = insert-Sorted x (sort xs) (sort-Sorted xs)

unfoldable pub total_le : (a b : ℕ) → (a ≤ b) ⊎ (b ≤ a)
unfolding dec_lt
total_le a b = elim (dec_lt b a) [ yes h ↦ inr (omega (arith, h)) | no h ↦ inl (omega (arith, h)) ]

abbrev pub orders : (A : Type 0) → OrderBy A
orders A = record {
  asc = λ k. sort (λ x y. k x ≤ k y) (λ x y. total_le (k x) (k y));
  desc = λ k. sort (λ x y. k y ≤ k x) (λ x y. total_le (k y) (k x));
  asc_mem = λ k x xs. sort-Mem (λ x y. k x ≤ k y) (λ x y. total_le (k x) (k y)) x xs;
  desc_mem = λ k x xs. sort-Mem (λ x y. k y ≤ k x) (λ x y. total_le (k y) (k x)) x xs;
  asc_rises = λ k xs.
      sort-Sorted (λ x y. k x ≤ k y) (λ x y. total_le (k x) (k y)) (λ x y z a b. omega arith) xs;
  desc_falls = λ k xs.
      sort-Sorted (λ x y. k y ≤ k x) (λ x y. total_le (k y) (k x)) (λ x y z a b. omega arith) xs;
  by_text = λ k xs. xs;
  by_text_mem = λ k x xs. (λ m. m, λ m. m);
}
