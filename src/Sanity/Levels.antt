-- ===== src/Sanity/Levels.antt =====
-- Which results the sanity check stops.
use test_analyst_agent.Common.{
  ℕ, suc, String, Bool, true, false, ◌&&◌, ◌||◌, ◌≡◌, refl, ◌↔◌, Option, none, some, List, [], ◌∷◌,
  ◌++◌, leb, ◌==◌, any, arith,
}
use test_analyst_agent.Store.Rows.{Cell}
use test_analyst_agent.Database.{Rows}
use test_analyst_agent.Sanity.{
  stop, Observation, is_stop, worst, check, observe_column, observe_columns, observe_cells,
  observe_limit, column, append_both, or_passed,
}

any-append {ℓ} :
    {A : Type ℓ} (p : A → Bool) (xs ys : List A) → any p (xs ++ ys) ≡ (any p xs || any p ys)
any-append p [] ys = refl
any-append p (x ∷ xs) ys = ground (arith, any-append p xs ys)

-- No column is a reason to stop.
observe_column-no_stop :
    (name : String) (cells : List Cell) → any is_stop (observe_column name cells) ≡ false
unfolding observe_column
observe_column-no_stop name cells = ground arith

abbrev NoStop : Option (List Observation) → Type 0
NoStop none = Unit
NoStop (some os) = any is_stop os ≡ false

observe_cells-NoStop :
    (name : String) (c : Option (List Cell)) (rest : Option (List Observation))
    → NoStop rest
    → NoStop (observe_cells name c rest)
observe_cells-NoStop name none rest h = tt
observe_cells-NoStop name (some cells) none h = tt
observe_cells-NoStop name (some cells) (some os) h =
    rw (any-append is_stop (observe_column name cells) os, observe_column-no_stop name cells) h

observe_columns-NoStop :
    (i : ℕ) (names : List String) (rows : List (List Cell)) → NoStop (observe_columns i names rows)
unfolding observe_columns
observe_columns-NoStop i [] rows = refl
observe_columns-NoStop i (name ∷ names) rows =
    observe_cells-NoStop name (column i rows) (observe_columns (suc i) names rows)
      (observe_columns-NoStop (suc i) names rows)

worst-eq-stop : (os : List Observation) → (worst os ≡ stop) ↔ (any is_stop os ≡ true)
unfolding worst
worst-eq-stop os = (λ h. ground arith, λ h. ground arith)

-- The reason to stop that the rows and the limit give.
abbrev pub must_stop : Rows → ℕ → Bool → Bool
must_stop r row_limit limit_imposed =
    r.row_count == 0 || ((r.truncated || leb row_limit r.row_count) && limit_imposed)

or_passed-stop :
    (r : Rows) (l : ℕ) (b : Bool) (c : Option (List Observation)) (os : List Observation)
    → NoStop c
    → (r.row_count == 0) ≡ false
    → or_passed (append_both (observe_limit r l b) c) ≡ some os
    → any is_stop os ≡ must_stop r l b
unfolding observe_limit
or_passed-stop r l b none os n z h = ground arith
or_passed-stop r l b (some []) os n z h = ground arith
or_passed-stop r l b (some (o ∷ ps)) os n z h = ground arith

check-stop :
    (r : Rows) (l : ℕ) (b : Bool) (os : List Observation)
    → check r l b ≡ some os
    → any is_stop os ≡ must_stop r l b
unfolding check
check-stop r l b os h = ground (
  arith,
  or_passed-stop r l b (observe_columns 0 r.columns r.rows) os
      (observe_columns-NoStop 0 r.columns r.rows),
)

-- A report's worst level is `stop` exactly when the result is empty, or when it was truncated or
-- reached the row limit and that limit was imposed by the guard rails.
pub worst-stop_iff :
    (r : Rows) (row_limit : ℕ) (limit_imposed : Bool) (os : List Observation)
    → check r row_limit limit_imposed ≡ some os
    → (worst os ≡ stop) ↔ (must_stop r row_limit limit_imposed ≡ true)
worst-stop_iff r l b os h = rw (← check-stop r l b os h) (worst-eq-stop os)
