-- ===== src/Common/Sets.antt =====
-- Python's sets of texts and their sorted lists, and dictionaries as lists of entries.
use Prim.Native.Nat.{Ordering}
use Prim.Native.String.{String, compare}
use mathlib.Core.Path.{◌≡◌, refl}
use mathlib.Core.Bool.{Bool, true, false, ◌&&◌, ◌||◌}
use mathlib.Core.Option.{Option, none, some}
use mathlib.Core.List.{List, [], ◌∷◌}
use native.Mathlib.Omega.{arith}
use text.Mathlib.Text.{◌==◌ as str_eq}
use text.Mathlib.TextEquality.{eq_iff}
use mathlib.Core.Logic.{inl, inr}
use test_analyst_agent.Common.Tests.{if◌then◌else◌, Bool-cases}
use test_analyst_agent.Common.Keyed.{find, upsert, find-upsert}

-- `x in xs`
unfoldable pub is_in : String → List String → Bool
is_in x [] = false
is_in x (y ∷ ys) = str_eq y x || is_in x ys

before : String → String → Bool
before a b = elim (compare a b) [ Ordering.lt ↦ true | _ ↦ false ]

-- The text goes in front of the first one that it is not after; an equal one is there already.
insert_sorted : String → List String → List String
unfolding before
insert_sorted x [] = x ∷ []
insert_sorted x (y ∷ ys) =
    if str_eq y x then y ∷ ys else if before x y then x ∷ y ∷ ys else y ∷ insert_sorted x ys

-- sorted(set(xs)): texts in the order of their code points, each once
unfoldable pub sorted_set : List String → List String
unfolding insert_sorted
sorted_set [] = []
sorted_set (x ∷ xs) = insert_sorted x (sorted_set xs)

insert_text : String → List String → List String
unfolding before
insert_text x [] = x ∷ []
insert_text x (y ∷ ys) = if before y x then y ∷ insert_text x ys else x ∷ y ∷ ys

-- sorted(xs), with the repetitions
unfoldable pub sorted_texts : List String → List String
unfolding insert_text
sorted_texts [] = []
sorted_texts (x ∷ xs) = insert_text x (sorted_texts xs)

abbrev pub texts_eq : List String → List String → Bool
texts_eq [] [] = true
texts_eq (x ∷ xs) (y ∷ ys) = str_eq x y && texts_eq xs ys
texts_eq _ _ = false

is_in-insert_sorted :
    (x y : String) (ys : List String) → is_in x (insert_sorted y ys) ≡ (str_eq y x || is_in x ys)
unfolding is_in insert_sorted
is_in-insert_sorted x y [] = refl
is_in-insert_sorted x y (z ∷ zs) =
    ground (arith, is_in-insert_sorted x y zs, eq_iff z y, eq_iff z x, eq_iff y x)

-- Sorting keeps what is in a set.
pub is_in-sorted_set : (x : String) (xs : List String) → is_in x (sorted_set xs) ≡ is_in x xs
unfolding is_in sorted_set
is_in-sorted_set x [] = refl
is_in-sorted_set x (y ∷ ys) =
    ground (arith, is_in-insert_sorted x y (sorted_set ys), is_in-sorted_set x ys)

abbrev pub entry_key {ℓ} : {V : Type ℓ} → String × V → String
entry_key (k, v) = k

abbrev value_of {ℓ} : {V : Type ℓ} → Option (String × V) → Option V
value_of none = none
value_of (some (k, v)) = some v

-- d.get(k)
unfoldable pub get {ℓ} : {V : Type ℓ} → String → List (String × V) → Option V
unfolding find
get k d = value_of (find entry_key k d)

-- d[k] = v
unfoldable pub put {ℓ} : {V : Type ℓ} → String → V → List (String × V) → List (String × V)
unfolding upsert
put k v d = upsert entry_key (k, v) d

pub get-put {ℓ} :
    {V : Type ℓ} (k j : String) (v : V) (d : List (String × V))
    → get j (put k v d) ≡ (if str_eq k j then some v else get j d)
get-put k j v d = elim (Bool-cases (str_eq k j)) [
  | inl e ↦ rw e (unfold get put in rw (find-upsert entry_key j (k, v) d, e))
  | inr e ↦ rw e (unfold get put in rw (find-upsert entry_key j (k, v) d, e))
]
