-- ===== src/Common/Ordered.antt =====
-- Lists in the order of a number, and their first elements.
use Prim.Native.Nat.{ℕ, zero, suc, ◌≤◌}
use Prim.Native.String.{String}
use mathlib.Core.Path.{◌≡◌, refl, sym, ap, subst}
use mathlib.Core.Logic.{◌⊎◌, ◌↔◌, inl, inr}
use mathlib.Core.List.{List, [], ◌∷◌}
use mathlib.Core.List.Memᴰ
use mathlib.Core.List.{Memᴰ}
use native.Mathlib.Omega.{arith}
use test_analyst_agent.Common.Lists.{All, length}

module _ {ℓ} {A : Type ℓ} where
  abbrev pub take : ℕ → List A → List A
  take zero xs = []
  take (suc n) [] = []
  take (suc n) (x ∷ xs) = x ∷ take n xs

  abbrev pub Rising : (A → ℕ) → List A → Type ℓ
  Rising k [] = Unit
  Rising k (x ∷ xs) = All (λ y. k x ≤ k y) xs × Rising k xs

  abbrev pub Falling : (A → ℕ) → List A → Type ℓ
  Falling k [] = Unit
  Falling k (x ∷ xs) = All (λ y. k y ≤ k x) xs × Falling k xs

  pub Mem-take : (n : ℕ) (x : A) (xs : List A) → Memᴰ x (take n xs) → Memᴰ x xs
  Mem-take zero x xs m = absurd (Memᴰ.not-nil m)
  Mem-take (suc n) x [] m = m
  Mem-take (suc n) x (y ∷ ys) m = elim (Memᴰ.cases_cons m) [
    | inl e ↦ Memᴰ.head e
    | inr r ↦ Memᴰ.tail (Mem-take n x ys r)
  ]

  pub length-take : (n : ℕ) (xs : List A) → length (take n xs) ≤ n
  length-take zero xs = omega arith
  length-take (suc n) [] = omega arith
  length-take (suc n) (x ∷ xs) = omega (arith, length-take n xs)

  pub All-Mem : (P : A → Type 0) (x : A) (xs : List A) → All P xs → Memᴰ x xs → P x
  All-Mem P x [] a m = absurd (Memᴰ.not-nil m)
  All-Mem P x (y ∷ ys) (a, as') m = elim (Memᴰ.cases_cons m) [
    | inl e ↦ subst P (sym e) a
    | inr r ↦ All-Mem P x ys as' r
  ]

  All-take : (P : A → Type 0) (n : ℕ) (xs : List A) → All P xs → All P (take n xs)
  All-take P zero xs a = tt
  All-take P (suc n) [] a = a
  All-take P (suc n) (x ∷ xs) (a, as') = (a, All-take P n xs as')

  pub take-Rising : (k : A → ℕ) (n : ℕ) (xs : List A) → Rising k xs → Rising k (take n xs)
  take-Rising k zero xs r = tt
  take-Rising k (suc n) [] r = r
  take-Rising k (suc n) (x ∷ xs) (a, r) = (All-take (λ y. k x ≤ k y) n xs a, take-Rising k n xs r)

  -- What is left out comes after all that is taken, and only a full list leaves anything out.
  abbrev pub LeftOut : (A → ℕ) → ℕ → A → List A → Type ℓ
  LeftOut k n q shown = (length shown ≡ n) × ((p : A) → Memᴰ p shown → k p ≤ k q)

  pub take-LeftOut :
      (k : A → ℕ) (n : ℕ) (q : A) (xs : List A)
      → Rising k xs
      → Memᴰ q xs
      → Memᴰ q (take n xs) ⊎ LeftOut k n q (take n xs)
  take-LeftOut k zero q xs r m = inr (refl, λ p h. absurd (Memᴰ.not-nil h))
  take-LeftOut k (suc n) q [] r m = absurd (Memᴰ.not-nil m)
  take-LeftOut k (suc n) q (x ∷ xs) (a, r) m = elim (Memᴰ.cases_cons m) [
    | inl e ↦ inl (Memᴰ.head e)
    | inr later ↦ elim (take-LeftOut k n q xs r later) [
      | inl there ↦ inl (Memᴰ.tail there)
      | inr (full, after) ↦ inr (
        ap suc full,
        λ p h. elim (Memᴰ.cases_cons h) [
          | inl first ↦ subst (λ y. k y ≤ k q) (sym first) (All-Mem (λ y. k x ≤ k y) q xs a later)
          | inr rest ↦ after p rest
        ],
      )
    ]
  ]

-- What an `ORDER BY` of the database gives: the same rows, in the order of a column, rising or
-- falling, or of a column of texts. Nothing is said on rows with equal values.
pub record OrderBy (A : Type 0) : Type 0 where
  pub asc : (A → ℕ) → List A → List A
  pub desc : (A → ℕ) → List A → List A
  pub asc_mem : (k : A → ℕ) (x : A) (xs : List A) → Memᴰ x (asc k xs) ↔ Memᴰ x xs
  pub desc_mem : (k : A → ℕ) (x : A) (xs : List A) → Memᴰ x (desc k xs) ↔ Memᴰ x xs
  pub asc_rises : (k : A → ℕ) (xs : List A) → Rising k (asc k xs)
  pub desc_falls : (k : A → ℕ) (xs : List A) → Falling k (desc k xs)
  -- A column of texts
  pub by_text : (A → String) → List A → List A
  pub by_text_mem : (k : A → String) (x : A) (xs : List A) → Memᴰ x (by_text k xs) ↔ Memᴰ x xs
