-- ===== src/Tests/Freeze.antt =====
-- One question frozen by freeze_gold.py, and checked.
use test_analyst_agent.Common.{
  ◌≡◌, refl, String, true, false, none, some, [], ◌∷◌, sym, inl, inr, ◌⊎◌, find, squeeze, upper,
  occurs_in, is_in, sorted_set,
}
use mathlib.Core.List.Memᴰ
use mathlib.Core.Path.{subst}
use test_analyst_agent.Store.Rows.{moment, words}
use test_analyst_agent.Database.{Cursor, fetched}
use test_analyst_agent.Guards.Checks.{
  read_only, allowlist, masking_ok, used_columns, joins_ok, lacking,
}
use test_analyst_agent.Guards.Run.{default_filters}
use test_analyst_agent.Evals.Dataset.{Question, question_key}
use test_analyst_agent.Evals.Dataset.Valid.{Found}
use test_analyst_agent.Evals.Expected.{Files, FrozenResult, load_frozen, build, matches}
use test_analyst_agent.Evals.Expected.Respelled.{matches-respelled}
use test_analyst_agent.Evals.Freeze.{freeze_main}
use test_analyst_agent.Evals.Freeze.Left.{OfQuestion}
use test_analyst_agent.Evals.Freeze.Checked.{freeze_main-Left, freeze_main-Checked}
use test_analyst_agent.Tests.Guards.{parser, guards, sql}
use test_analyst_agent.Tests.Evals.{question}

abbrev digest : String → String
digest text = text

abbrev gold_question : Question
gold_question = record question { gold_sql = some sql }

abbrev cursor : String → Cursor
cursor text = fetched ("mandt" ∷ "day" ∷ []) ((words "100" ∷ moment "2021-01-01" ∷ []) ∷ [])

abbrev frozen_files : Files
frozen_files =
    (
      "open-01",
      record {
        question_id = "open-01";
        fingerprint = "SELECT MANDT FRO";
        columns = "MANDT" ∷ "DAY" ∷ [];
        rows = (words "100" ∷ words "2021-01-01" ∷ []) ∷ [];
        row_count = 1;
        frozen_at = "2026-09-04";
        data_as_of = none;
        duration_ms = 7;
      },
    )
    ∷ []

freezes :
    freeze_main digest parser guards cursor
      (λ text. 7)
      (λ id. "2026-09-04")
      (λ text. none)
      none
      (record { only = none; check_only = false })
      (gold_question ∷ [])
      []
    ≡ (frozen_files, some 0)
unfolding freeze_main read_only allowlist occurs_in is_in masking_ok used_columns sorted_set
    joins_ok default_filters lacking
freezes = refl

gold_question-Found : Found (gold_question ∷ [])
gold_question-Found q m = elim (Memᴰ.cases_cons m) [
  | inl e ↦
      subst (λ x. find question_key x.id (gold_question ∷ []) ≡ some x) (sym e)
        (unfold find in refl)
  | inr later ↦ absurd (Memᴰ.not-nil later)
]

freeze_main-Left_example :
    (load_frozen "open-01" frozen_files ≡ load_frozen "open-01" [])
    ⊎ OfQuestion digest parser guards cursor
        (λ text. 7)
        (λ id. "2026-09-04")
        (λ text. none)
        none
        "open-01"
        (gold_question ∷ [])
        (load_frozen "open-01" frozen_files)
unfolding freeze_main read_only allowlist occurs_in is_in masking_ok used_columns sorted_set
    joins_ok default_filters lacking
freeze_main-Left_example =
    freeze_main-Left digest parser guards cursor (λ text. 7) (λ id. "2026-09-04") (λ text. none)
      none (record { only = none; check_only = false }) (gold_question ∷ []) [] "open-01"

freeze_main-Checked_example :
    freeze_main digest parser guards cursor
      (λ text. 7)
      (λ id. "2026-09-04")
      (λ text. none)
      none
      (record { only = none; check_only = true })
      (gold_question ∷ [])
      frozen_files
    ≡ (frozen_files, some 0)
freeze_main-Checked_example =
    freeze_main-Checked digest parser guards cursor (λ text. 7) (λ id. "2026-09-04") (λ text. none)
      none none (gold_question ∷ []) [] frozen_files gold_question-Found freezes

abbrev by_name : String → FrozenResult
by_name query = build digest "open-01" query [] [] none 7 "2026-09-04"

-- The text that the query compares with is another one, and the frozen result matches it.
matches-respelled_example :
    (matches digest (by_name "A  = 'Rus'") "A = 'Rus'" ≡ true)
    × (matches digest (by_name "A  = 'Rus'") "A  = 'RUS'" ≡ true)
unfolding build squeeze upper
matches-respelled_example =
    matches-respelled digest "open-01" "A  = 'Rus'" "2026-09-04" [] [] none 7
