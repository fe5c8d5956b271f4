-- ===== src/Common/Members.antt =====
-- The members of lists under Boolean tests.
use mathlib.Core.Path.{◌≡◌, refl, sym, ap, ◌∙◌}
use mathlib.Core.Bool.{Bool, true, false}
use mathlib.Core.List.{List, [], ◌∷◌}
pub use mathlib.Core.List.{Memᴰ}
use mathlib.Core.List.Memᴰ
use mathlib.Core.Logic.{inl, inr}
use native.Mathlib.Omega.{arith}
use test_analyst_agent.Common.Tests.{Bool-cases}
use test_analyst_agent.Common.Lists.{any, all, keep}

module _ {ℓ} {A : Type ℓ} where
  pub all-Mem : (f : A → Bool) (x : A) (xs : List A) → Memᴰ x xs → all f xs ≡ true → f x ≡ true
  all-Mem f x [] m h = absurd (Memᴰ.not-nil m)
  all-Mem f x (y ∷ xs) (Memᴰ.head e) h = ap f e ∙ ground arith
  all-Mem f x (y ∷ xs) (Memᴰ.tail m) h = all-Mem f x xs m (ground arith)

  pub any-Mem : (f : A → Bool) (x : A) (xs : List A) → Memᴰ x xs → any f xs ≡ false → f x ≡ false
  any-Mem f x [] m h = absurd (Memᴰ.not-nil m)
  any-Mem f x (y ∷ xs) (Memᴰ.head e) h = ap f e ∙ ground arith
  any-Mem f x (y ∷ xs) (Memᴰ.tail m) h = any-Mem f x xs m (ground arith)

  pub Mem-keep : (f : A → Bool) (x : A) (xs : List A) → Memᴰ x xs → f x ≡ true → Memᴰ x (keep f xs)
  Mem-keep f x [] m h = m
  Mem-keep f x (y ∷ xs) (Memᴰ.head e) h = rw (sym (ap f e) ∙ h) (Memᴰ.head e)
  Mem-keep f x (y ∷ xs) (Memᴰ.tail m) h = elim (Bool-cases (f y)) [
    | inl e ↦ rw e (Memᴰ.tail (Mem-keep f x xs m h))
    | inr e ↦ rw e (Mem-keep f x xs m h)
  ]

  pub keep-Mem :
      (f : A → Bool) (x : A) (xs : List A) → Memᴰ x (keep f xs) → Memᴰ x xs × (f x ≡ true)
  keep-Mem f x [] m = absurd (Memᴰ.not-nil m)
  keep-Mem f x (y ∷ xs) m = elim (Bool-cases (f y)) [
    | inl e ↦ elim (Memᴰ.cases_cons (rw e at m)) [
      | inl same ↦ (Memᴰ.head same, ap f same ∙ e)
      | inr rest ↦ let (there, ok) = keep-Mem f x xs rest in (Memᴰ.tail there, ok)
    ]
    | inr e ↦ let (there, ok) = keep-Mem f x xs (rw e at m) in (Memᴰ.tail there, ok)
  ]

  -- The rows that fail a test are none.
  pub any-none :
      (f : A → Bool) (xs : List A) → ((x : A) → Memᴰ x xs → f x ≡ false) → any f xs ≡ false
  any-none f [] h = refl
  any-none f (x ∷ xs) h =
      ground (arith, h x (Memᴰ.head refl), any-none f xs (λ y m. h y (Memᴰ.tail m)))
