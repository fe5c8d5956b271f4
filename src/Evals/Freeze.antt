-- ===== src/Evals/Freeze.antt =====
-- evals/tools/freeze_gold.py: every gold query is checked, run and frozen, and `--check` asks which
-- frozen answers are stale. A query's answer by the driver, how long it took and the moment that a
-- result is frozen at are arguments, and so is the float of an object that has one; the lines for people
-- are left out, and a write of a file does not fail.
pub mod Frozen
pub mod Left
pub mod Fresh
pub mod Checked
use test_analyst_agent.Common.{
  ℕ, String, Bool, true, false, not, Option, none, some, List, [], ◌∷◌, ◌++◌, map, keep, str_eq,
  ◌==◌, if◌then◌else◌,
}
use test_analyst_agent.Common.Int.{ℤ}
use test_analyst_agent.Store.Rows.{Cell, null, flag, number, words, moment, other}
use test_analyst_agent.Database
use test_analyst_agent.Database.{Rows, Cursor, RunOutcome, answered, timeout, refused, crashed}
use test_analyst_agent.Guards.Parser.{Parser}
use test_analyst_agent.Guards.Checks.{Guards}
use test_analyst_agent.Guards.Verdict.{Verdict}
use test_analyst_agent.Guards.Run.{check}
use test_analyst_agent.Evals.Dataset.{Question, answerable_of}
use test_analyst_agent.Evals.Expected.{
  FrozenResult, Files, save_frozen, load_frozen, build, matches,
}

abbrev pub max_rows : ℕ
max_rows = 1000

-- float(value) if hasattr(value, "__float__") else str(value)
abbrev float_or_text : String → Option ℤ → Cell
float_or_text str none = words str
float_or_text str (some z) = number z

-- _plain; `float_of` is the number that the object of a cell has by `__float__`, where it has one
unfoldable pub plain : (String → Option ℤ) → Cell → Cell
plain float_of null = null
plain float_of (flag b) = flag b
plain float_of (number z) = number z
plain float_of (words s) = words s
plain float_of (moment iso) = words iso
plain float_of (other str) = float_or_text str (float_of str)

-- What a question adds to the report: why it is not frozen.
pub data Failure : Type 0 where
  by_guards no_rows cut_off : String → Failure

-- The body of the loop: a frozen result, a failure, or an exception.
pub data Attempt : Type 0 where
  frozen : FrozenResult → Attempt
  failed : Failure → Attempt
  raised : Attempt

-- The end of the loop, with the failures, or an exception.
pub data End : Type 0 where
  ended : List Failure → End
  broken_off : End

-- The options of the command line.
pub record Args : Type 0 where
  pub only : Option String
  pub check_only : Bool

abbrev pub chosen : Option String → List Question → List Question
chosen none qs = qs
chosen (some id) qs = if str_eq id "" then qs else keep (λ (q : Question). str_eq q.id id) qs

abbrev pub is_none_chosen : Option String → List Question → Bool
is_none_chosen (some id) [] = not (str_eq id "")
is_none_chosen _ _ = false

module _ (digest : String → String) where
  abbrev pub is_missing : Files → Question → Bool
  is_missing files q = elim (load_frozen q.id files) [ none ↦ true | some r ↦ false ]

  -- An answerable question has a gold query: load_dataset.
  abbrev pub gold_of : Question → String
  gold_of q = elim q.gold_sql [ none ↦ "" | some sql ↦ sql ]

  abbrev pub is_stale : Files → Question → Bool
  is_stale files q = elim (load_frozen q.id files) [
    | none ↦ false
    | some r ↦ not (matches digest r (gold_of q))
  ]

  abbrev pub exit_of : List Question → List Question → ℕ
  exit_of [] [] = 0
  exit_of _ _ = 1

  -- _check: the exit code
  unfoldable pub check_frozen : List Question → Files → ℕ
  unfolding load_frozen matches
  check_frozen qs files = exit_of (keep (is_missing files) qs) (keep (is_stale files) qs)

  module _ (P : Parser) (g : Guards) (answer : String → Cursor) (took : String → ℕ)
      (stamp : String → String) (float_of : String → Option ℤ) (as_of : Option String) where
    abbrev pub frozen_of : String → String → Rows → FrozenResult
    frozen_of id sql rows =
        build digest id sql rows.columns (map (map (plain float_of)) rows.rows) as_of
          rows.duration_ms (stamp id)

    abbrev pub with_rows : String → String → RunOutcome → Attempt
    with_rows id sql (answered rows) =
        if rows.row_count == 0
        then failed (no_rows id)
        else if rows.truncated
        then failed (cut_off id)
        else frozen (frozen_of id sql rows)
    with_rows id sql timeout = raised
    with_rows id sql refused = raised
    with_rows id sql crashed = raised

    abbrev pub with_verdict : String → String → Option Verdict → Attempt
    with_verdict id sql none = raised
    with_verdict id sql (some verdict) =
        if not verdict.ok
        then failed (by_guards id)
        else with_rows id sql (Database.run max_rows (took verdict.sql) (answer verdict.sql))

    abbrev pub with_sql : String → Option String → Attempt
    with_sql id none = raised
    with_sql id (some sql) = with_verdict id sql (check P g sql)

    unfoldable pub freeze_one : Question → Attempt
    unfolding check plain build Database.run
    freeze_one q = with_sql q.id q.gold_sql

    unfoldable pub freeze_all : List Question → Files → List Failure → Files × End
    unfolding save_frozen freeze_one
    freeze_all [] files failures = (files, ended failures)
    freeze_all (q ∷ qs) files failures = elim (freeze_one q) [
      | frozen r ↦ freeze_all qs (save_frozen r files) failures
      | failed f ↦ freeze_all qs files (failures ++ f ∷ [])
      | raised ↦ (files, broken_off)
    ]

    abbrev pub exit_after : End → Option ℕ
    exit_after (ended []) = some 0
    exit_after (ended (f ∷ fs)) = some 1
    exit_after broken_off = none

    -- main: the files that it leaves, and the exit code where no exception ends it
    unfoldable pub freeze_main : Args → List Question → Files → Files × Option ℕ
    unfolding freeze_all check_frozen
    freeze_main args dataset files =
        let qs = chosen args.only (answerable_of dataset) in
        if is_none_chosen args.only qs
        then (files, some 2)
        else if args.check_only
        then (files, some (check_frozen qs files))
        else let (left, end) = freeze_all qs files [] in (left, exit_after end)
