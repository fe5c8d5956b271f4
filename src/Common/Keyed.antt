-- ===== src/Common/Keyed.antt =====
-- A table with a text as its primary key: rows in the order of insertion.
use Prim.Native.String.{String}
use mathlib.Core.Path.{◌≡◌, refl}
use mathlib.Core.Option
use mathlib.Core.Option.{Option, none, some}
use mathlib.Core.List.{List, [], ◌∷◌, ◌++◌}
use native.Mathlib.Omega.{arith}
use text.Mathlib.Text.{◌==◌ as str_eq}
use text.Mathlib.TextEquality.{eq_iff}
use test_analyst_agent.Common.Tests.{if◌then◌else◌, is_some}

-- The first of two answers that there is.
abbrev pub first_some {ℓ} : {A : Type ℓ} → Option A → Option A → Option A
first_some none b = b
first_some (some a) b = some a

first_none {ℓ} : {A : Type ℓ} (o : Option A) → first_some o none ≡ o
first_none none = refl
first_none (some a) = refl

module _ {ℓ} {A : Type ℓ} (key : A → String) where
  -- session.get(Row, k)
  unfoldable pub find : String → List A → Option A
  find k [] = none
  find k (r ∷ rs) = if str_eq (key r) k then some r else find k rs

  -- The row that `session.get` returned is changed and committed.
  unfoldable pub update : String → (A → A) → List A → List A
  update k f [] = []
  update k f (r ∷ rs) = if str_eq (key r) k then f r ∷ rs else r ∷ update k f rs

  pub find-key : (k : String) (rs : List A) (a : A) → find k rs ≡ some a → key a ≡ k
  unfolding find
  find-key k [] a h = cc
  find-key k (r ∷ rs) a h = ground (arith, eq_iff (key r) k, find-key k rs a)

  pub find-append :
      (j : String) (rs ss : List A) → find j (rs ++ ss) ≡ first_some (find j rs) (find j ss)
  unfolding find
  find-append j [] ss = refl
  find-append j (r ∷ rs) ss = ground (arith, find-append j rs ss)

  pub find-update :
      (j k : String) (f : A → A) (rs : List A)
      → ((a : A) → key (f a) ≡ key a)
      → find j (update k f rs) ≡ (if str_eq k j then Option.map f (find j rs) else find j rs)
  unfolding find update
  find-update j k f [] h = ground arith
  find-update j k f (r ∷ rs) h = ground (
    arith,
    h r,
    eq_iff (key r) j,
    eq_iff (key r) k,
    eq_iff k j,
    eq_iff (key (f r)) j,
    find-update j k f rs h,
  )

  -- The row under its key is replaced, or added where there is none.
  unfoldable pub upsert : A → List A → List A
  upsert r rs = if is_some (find (key r) rs) then update (key r) (λ _. r) rs else rs ++ r ∷ []

  pub update-const :
      (j : String) (r : A) (rs : List A)
      → find j (update (key r) (λ _. r) rs)
        ≡ (if str_eq (key r) j then Option.map (λ (_ : A). r) (find j rs) else find j rs)
  unfolding find update
  update-const j r [] = ground arith
  update-const j r (x ∷ rs) =
      ground
        (arith, eq_iff (key x) j, eq_iff (key x) (key r), eq_iff (key r) j, update-const j r rs)

  pub find-replace :
      (j : String) (r : A) (rs : List A) {a : A}
      → find (key r) rs ≡ some a
      → find j (update (key r) (λ _. r) rs) ≡ (if str_eq (key r) j then some r else find j rs)
  find-replace j r rs h = ground (arith, update-const j r rs, eq_iff (key r) j)

  pub find-add :
      (j : String) (r : A) (rs : List A)
      → find (key r) rs ≡ none
      → find j (rs ++ r ∷ []) ≡ (if str_eq (key r) j then some r else find j rs)
  find-add j r rs h =
      rw find-append (unfold find in ground (arith, eq_iff (key r) j, first_none (find j rs)))

  pub find-upsert :
      (j : String) (r : A) (rs : List A)
      → find j (upsert r rs) ≡ (if str_eq (key r) j then some r else find j rs)
  unfolding upsert
  find-upsert j r rs = ground (arith, find-add j r rs, update-const j r rs, eq_iff (key r) j)
