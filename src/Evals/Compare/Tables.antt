-- ===== src/Evals/Compare/Tables.antt =====
-- Table of compare.py, and its columns.
use test_analyst_agent.Common.{
  ℕ, zero, suc, String, Option, none, some, List, [], ◌∷◌, map, str_eq, strip, upper, if◌then◌else◌,
}
use Prim.Native.String.{◌++◌ as str_append}
use mathlib.Core.Option
use test_analyst_agent.Evals.Compare.Values.{Floats, Value, key_value}

-- A step that may raise, then the rest.
abbrev pub and_then {ℓ κ} : {A : Type ℓ} {B : Type κ} → Option A → (A → Option B) → Option B
and_then none f = none
and_then (some a) f = f a

abbrev pub cons_some {ℓ} : {A : Type ℓ} → Option A → Option (List A) → Option (List A)
cons_some none rest = none
cons_some (some a) none = none
cons_some (some a) (some rest) = some (a ∷ rest)

-- [f(x) for x in xs], where f may raise
abbrev pub map_some {ℓ κ} : {A : Type ℓ} {B : Type κ} → (A → Option B) → List A → Option (List B)
map_some f [] = some []
map_some f (x ∷ xs) = cons_some (f x) (map_some f xs)

abbrev pub get_elem? {ℓ} : {A : Type ℓ} → List A → ℕ → Option A
get_elem? [] i = none
get_elem? (x ∷ xs) zero = some x
get_elem? (x ∷ xs) (suc i) = get_elem? xs i

abbrev pub position : String → List String → Option ℕ
position c [] = none
position c (x ∷ xs) = if str_eq x c then some 0 else Option.map suc (position c xs)

-- sep.join(parts)
abbrev pub join : String → List String → String
join sep [] = ""
join sep (a ∷ []) = a
join sep (a ∷ b ∷ rest) = str_append a (str_append sep (join sep (b ∷ rest)))

module _ (F : Floats) where
  open F use {Float}

  pub record Table : Type 0 where
    pub columns : List String
    pub rows : List (List (Value Float))

  -- Table.of
  unfoldable pub table_of : List String → List (List (Value Float)) → Table
  unfolding upper strip
  table_of columns rows = record { columns = map (λ c. upper (strip c)) columns; rows = rows }

  -- Table.index
  abbrev pub index : Table → String → Option ℕ
  index t column = position (upper column) t.columns

  abbrev values_at : Table → ℕ → Option (List (Value Float))
  values_at t i = map_some (λ row. get_elem? row i) t.rows

  -- _values
  abbrev pub values : Table → String → Option (List (Value Float))
  values t column = and_then (index t column) (values_at t)

  -- " | ".join(_key_value(row[p]) for p in positions)
  abbrev cells_at : List (Value Float) → List ℕ → Option (List (Value Float))
  cells_at row positions = map_some (get_elem? row) positions

  abbrev pub joined_key : Option (List (Value Float)) → Option String
  joined_key none = none
  joined_key (some cells) = some (join " | " (map (key_value F) cells))

  unfoldable pub row_key : List ℕ → List (Value Float) → Option String
  row_key positions row = joined_key (cells_at row positions)
