-- ===== src/Tests/Results.antt =====
-- Results, their sanity checks and the row limit of a run, at concrete data.
use test_analyst_agent.Common.{◌≡◌, ◌↔◌, refl, true, false, some, List, [], ◌∷◌}
use test_analyst_agent.Common.Int.{pos}
use test_analyst_agent.Store.Rows.{Cell, number}
use test_analyst_agent.Database.{Rows, run, take, run-answered}
use test_analyst_agent.Sanity.{worst, stop, check, observe_column, looks_like_money, negative}
use test_analyst_agent.Sanity.Levels.{worst-stop_iff, must_stop}
use test_analyst_agent.Sanity.Stored.{stored, check-stored}
use test_analyst_agent.Samples.{sample_rows}

negative_revenue : check sample_rows 1000 true ≡ some (negative "REVENUE" ∷ [])
unfolding check observe_column looks_like_money
negative_revenue = refl

abbrev one_column : List (List Cell)
one_column = (number (pos 1) ∷ []) ∷ (number (pos 2) ∷ []) ∷ (number (pos 3) ∷ []) ∷ []

abbrev cut_rows : Rows
cut_rows = record {
  columns = "N" ∷ [];
  rows = (number (pos 1) ∷ []) ∷ (number (pos 2) ∷ []) ∷ [];
  row_count = 2;
  truncated = true;
  duration_ms = 7;
}

run-answered_example :
    (cut_rows.rows ≡ take 2 one_column) × (cut_rows.row_count ≡ 2) × (cut_rows.truncated ≡ true)
unfolding run
run-answered_example = run-answered 2 7 ("N" ∷ []) one_column cut_rows refl

worst-stop_iff_example :
    (worst (negative "REVENUE" ∷ []) ≡ stop) ↔ (must_stop sample_rows 1000 true ≡ true)
worst-stop_iff_example =
    worst-stop_iff sample_rows 1000 true (negative "REVENUE" ∷ []) negative_revenue

check-stored_example : check (stored sample_rows) 5 false ≡ check sample_rows 5 false
check-stored_example = check-stored sample_rows 5 false
