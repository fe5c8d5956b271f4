-- ===== src/Sanity.antt =====
-- mcp_server/src/sap_agent_mcp/sanity.py: the plausibility checks on a result. The texts for people
-- are left out; an observation is its id, with the column's name where the id carries it.
pub mod Levels
pub mod Stored
use test_analyst_agent.Common.{
  ℕ, zero, suc, ◌+◌, String, Bool, true, false, not, ◌&&◌, ◌||◌, Option, none, some, List, [], ◌∷◌,
  ◌++◌, ltb, leb, ◌==◌, length, any, all, if◌then◌else◌, occurs_in_lower,
}
use test_analyst_agent.Common.Int.{ℤ, pos, ltb_ℤ, leb_ℤ}
use test_analyst_agent.Store.Rows.{Cell, null, number}
use test_analyst_agent.Database.{Rows}

pub data Level : Type 0 where
  ok attention stop : Level

pub data Observation : Type 0 where
  empty_result truncated at_requested_limit passed : Observation
  all_null negative constant : String → Observation

abbrev pub level_of : Observation → Level
level_of empty_result = stop
level_of truncated = stop
level_of at_requested_limit = attention
level_of passed = ok
level_of (all_null name) = attention
level_of (negative name) = attention
level_of (constant name) = attention

abbrev pub is_stop : Observation → Bool
is_stop o = elim (level_of o) [ stop ↦ true | _ ↦ false ]

abbrev pub is_attention : Observation → Bool
is_attention o = elim (level_of o) [ attention ↦ true | _ ↦ false ]

-- SanityReport.worst
unfoldable pub worst : List Observation → Level
worst os = if any is_stop os then stop else if any is_attention os then attention else ok

abbrev pub is_null : Cell → Bool
is_null null = true
is_null _ = false

-- _numeric: the numbers of a column, booleans not counted
unfoldable pub numeric : List Cell → List ℤ
numeric [] = []
numeric (number z ∷ cells) = z ∷ numeric cells
numeric (_ ∷ cells) = numeric cells

-- row[index], for every row; a row that is too short raises
pub cell_at : List Cell → ℕ → Option Cell
cell_at [] i = none
cell_at (c ∷ row) zero = some c
cell_at (c ∷ row) (suc i) = cell_at row i

abbrev both {ℓ} : {A : Type ℓ} → Option A → Option (List A) → Option (List A)
both (some c) (some cs) = some (c ∷ cs)
both _ _ = none

pub column : ℕ → List (List Cell) → Option (List Cell)
unfolding cell_at
column i [] = some []
column i (row ∷ rows) = both (cell_at row i) (column i rows)

abbrev is_negative : ℤ → Bool
is_negative z = ltb_ℤ z (pos 0)

abbrev same : ℤ → ℤ → Bool
same a b = leb_ℤ a b && leb_ℤ b a

-- `len(set(numbers)) == 1`
abbrev one_value : List ℤ → Bool
one_value [] = false
one_value (z ∷ zs) = all (same z) zs

money_words : List String
money_words =
    "netwr" ∷ "revenue" ∷ "amount" ∷ "sum" ∷ "выручк" ∷ "fkimg" ∷ "qty" ∷ "quantity" ∷ "margin"
    ∷ "маржа" ∷ "stprs" ∷ "cost" ∷ []

unfoldable pub looks_like_money : String → Bool
unfolding money_words occurs_in_lower
looks_like_money name = any (λ word. occurs_in_lower word name) money_words

abbrev when : Bool → Observation → List Observation
when b o = if b then o ∷ [] else []

-- The body of the loop over the columns, for one column.
unfoldable pub observe_column : String → List Cell → List Observation
unfolding numeric
observe_column name cells =
    let numbers = numeric cells in
    if not (length cells == 0) && all is_null cells
    then all_null name ∷ []
    else if not (length numbers == 0) && length numbers == length cells
    then when (any is_negative numbers && looks_like_money name) (negative name)
      ++ when (one_value numbers && ltb 3 (length numbers)) (constant name)
    else []

abbrev append_both : List Observation → Option (List Observation) → Option (List Observation)
append_both os none = none
append_both os (some ps) = some (os ++ ps)

abbrev observe_cells :
    String → Option (List Cell) → Option (List Observation) → Option (List Observation)
observe_cells name none rest = none
observe_cells name (some cells) rest = append_both (observe_column name cells) rest

unfoldable pub observe_columns : ℕ → List String → List (List Cell) → Option (List Observation)
unfolding column
observe_columns i [] rows = some []
observe_columns i (name ∷ names) rows =
    observe_cells name (column i rows) (observe_columns (suc i) names rows)

-- The ceiling that the guard rails set is a stop, the analyst's own is not.
unfoldable pub observe_limit : Rows → ℕ → Bool → List Observation
observe_limit r row_limit limit_imposed =
    if r.truncated || leb row_limit r.row_count
    then (if limit_imposed then truncated else at_requested_limit) ∷ []
    else []

abbrev or_passed : Option (List Observation) → Option (List Observation)
or_passed none = none
or_passed (some []) = some (passed ∷ [])
or_passed (some (o ∷ os)) = some (o ∷ os)

-- `none` is the IndexError of a row that is shorter than the header.
unfoldable pub check : Rows → ℕ → Bool → Option (List Observation)
unfolding observe_limit observe_columns
check r row_limit limit_imposed =
    if r.row_count == 0
    then some (empty_result ∷ [])
    else or_passed
        (append_both (observe_limit r row_limit limit_imposed) (observe_columns 0 r.columns r.rows))
