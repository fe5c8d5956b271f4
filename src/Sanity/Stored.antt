-- ===== src/Sanity/Stored.antt =====
-- The stored copy of a result: _jsonable of mcp_server/src/sap_agent_mcp/tools.py, which every value
-- passes through before it is kept, and what the sanity check says of the copy.
use test_analyst_agent.Common.{
  ℕ, zero, suc, String, Bool, ◌≡◌, refl, Option, none, some, List, [], ◌∷◌, ap, arith, map, all,
  length,
}
use mathlib.Core.Option
use test_analyst_agent.Store.Rows.{Cell, null, flag, number, words, moment, other}
use test_analyst_agent.Database.{Rows}
use test_analyst_agent.Sanity.{
  Observation, check, observe_column, observe_columns, observe_cells, column, cell_at, is_null,
  numeric, observe_limit,
}

unfoldable pub jsonable : Cell → Cell
jsonable (moment iso) = words iso
jsonable (other str) = words str
jsonable (null) = null
jsonable (flag b) = flag b
jsonable (number z) = number z
jsonable (words s) = words s

abbrev pub jsonable_rows : List (List Cell) → List (List Cell)
jsonable_rows rows = map (map jsonable) rows

abbrev pub stored : Rows → Rows
stored r = record r { rows = jsonable_rows r.rows }

cell_at-map :
    (f : Cell → Cell) (row : List Cell) (i : ℕ)
    → cell_at (map f row) i ≡ Option.map f (cell_at row i)
unfolding cell_at
cell_at-map f [] i = refl
cell_at-map f (c ∷ row) zero = refl
cell_at-map f (c ∷ row) (suc i) = cell_at-map f row i

column-jsonable :
    (i : ℕ) (rows : List (List Cell))
    → column i (jsonable_rows rows) ≡ Option.map (map jsonable) (column i rows)
unfolding column
column-jsonable i [] = refl
column-jsonable i (row ∷ rows) = ground (arith, cell_at-map jsonable row i, column-jsonable i rows)

is_null-jsonable : (c : Cell) → is_null (jsonable c) ≡ is_null c
unfolding jsonable
is_null-jsonable null = refl
is_null-jsonable _ = refl

all_null-jsonable : (cells : List Cell) → all is_null (map jsonable cells) ≡ all is_null cells
all_null-jsonable [] = refl
all_null-jsonable (c ∷ cells) = rw (is_null-jsonable c, all_null-jsonable cells)

numeric-jsonable : (cells : List Cell) → numeric (map jsonable cells) ≡ numeric cells
unfolding numeric jsonable
numeric-jsonable [] = refl
numeric-jsonable (number z ∷ cells) = ap (◌∷◌ z) (numeric-jsonable cells)
numeric-jsonable (c ∷ cells) = numeric-jsonable cells

length-map : (f : Cell → Cell) (cells : List Cell) → length (map f cells) ≡ length cells
length-map f [] = refl
length-map f (c ∷ cells) = ap suc (length-map f cells)

observe_column-jsonable :
    (name : String) (cells : List Cell)
    → observe_column name (map jsonable cells) ≡ observe_column name cells
unfolding observe_column
observe_column-jsonable name cells =
    rw (all_null-jsonable cells, numeric-jsonable cells, length-map jsonable cells)

observe_cells-jsonable :
    (name : String) (c : Option (List Cell)) (rest : Option (List Observation))
    → observe_cells name (Option.map (map jsonable) c) rest ≡ observe_cells name c rest
observe_cells-jsonable name none rest = refl
observe_cells-jsonable name (some cells) rest = rw (observe_column-jsonable name cells)

observe_columns-jsonable :
    (i : ℕ) (names : List String) (rows : List (List Cell))
    → observe_columns i names (jsonable_rows rows) ≡ observe_columns i names rows
unfolding observe_columns
observe_columns-jsonable i [] rows = refl
observe_columns-jsonable i (name ∷ names) rows = rw (
  column-jsonable i rows,
  observe_columns-jsonable (suc i) names rows,
  observe_cells-jsonable name (column i rows) (observe_columns (suc i) names rows),
)

-- The stored copy of a result gets the report of the result itself.
pub check-stored :
    (r : Rows) (row_limit : ℕ) (limit_imposed : Bool)
    → check (stored r) row_limit limit_imposed ≡ check r row_limit limit_imposed
unfolding check observe_limit
check-stored r l b = rw (observe_columns-jsonable 0 r.columns r.rows)
