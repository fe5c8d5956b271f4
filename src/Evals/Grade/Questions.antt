-- ===== src/Evals/Grade/Questions.antt =====
-- best_comparison, diagnose and grade_questions of grade_reference.py, for one run. `none` is an
-- exception. Texts for people, costs and durations are left out.
use test_analyst_agent.Common.{
  ℕ, String, Bool, true, false, not, ◌&&◌, ◌||◌, Option, none, some, List, [], ◌∷◌, keep, str_eq,
  is_in, occurs_in_lower, if◌then◌else◌, length, count,
}
use test_analyst_agent.Evals.Calls.{ToolCall, truthy_or}
use test_analyst_agent.Evals.Dataset.{Question, answerable, trap, TrapType, ambiguous, no_data}
use test_analyst_agent.Evals.Trajectory.{check_trajectory}
use test_analyst_agent.Evals.Compare.Values.{Floats, Value}
use test_analyst_agent.Evals.Compare.Tables.{Table, table_of, and_then}
use test_analyst_agent.Evals.Compare.Buckets.{Comparison}
use test_analyst_agent.Evals.Compare.Verdict.{Expectation, compare, is_empty}
use test_analyst_agent.Evals.Judge.Numbers.{Printing}
use test_analyst_agent.Evals.Judge.Rules.{Check}
use test_analyst_agent.Evals.Judge.Model.{Json, Reply}
use test_analyst_agent.Evals.Judge.Verdict.{is_failed, judge, ok}
use test_analyst_agent.Evals.Grade.{
  Line, FiledProposal, calls_of, answer_refuses, asked_to_clarify, executions,
}

-- What a run missed.
pub data Diagnosis : Type 0 where
  not_executed no_gold agreed wrong_numbers other_rows no_measures : Diagnosis
  only_shape shape_and_values : List String → Diagnosis
  unclear : Diagnosis

module _ (F : Floats) where
  open F use {Float}

  -- A result of the store.
  pub record Result : Type 0 where
    pub columns : List String
    pub rows : List (List (Value Float))

  -- expected.FrozenResult
  pub record Frozen : Type 0 where
    pub columns : List String
    pub rows : List (List (Value Float))
    pub data_as_of : Option String

  abbrev pub as_table : Frozen → Table F
  as_table g = table_of F g.columns g.rows

  -- answer_tables
  abbrev pub answer_tables : List Result → List (Table F)
  answer_tables [] = []
  answer_tables (r ∷ rs) = table_of F r.columns r.rows ∷ answer_tables rs

  abbrev pub last_of {ℓ} : {A : Type ℓ} → List A → Option A
  last_of [] = none
  last_of (x ∷ []) = some x
  last_of (x ∷ y ∷ rest) = last_of (y ∷ rest)

  -- answer_table
  abbrev pub answer_table : List Result → Option (Table F)
  answer_table results = last_of (answer_tables results)

  abbrev pub Compared : Type 0
  Compared = Comparison F × Table F

  -- `best` keeps the first comparison.
  abbrev pub or_first : Option Compared → Compared → Compared
  or_first none c = c
  or_first (some b) c = b

  -- The loop of best_comparison
  unfoldable pub best_of :
      Table F → Expectation F → List (Table F) → Option Compared → Option (Option Compared)
  unfolding compare
  best_of gold x [] best = some best
  best_of gold x (t ∷ ts) best = and_then (compare F gold t x) (λ c.
      let rest = best_of gold x ts (some (or_first best (c, t))) in
      if c.ok then some (some (c, t)) else rest)

  unfoldable pub best_comparison :
      Table F → Expectation F → List (Table F) → Option (Option Compared)
  unfolding best_of
  best_comparison gold x tables = best_of gold x tables none

  abbrev pub reduced : Expectation F → List String → Expectation F
  reduced x missing = record x {
    key_columns = keep (λ c. not (is_in c missing)) x.key_columns;
    measure_columns = keep (λ c. not (is_in c missing)) x.measure_columns;
  }

  abbrev pub diagnose_shape : Table F → Expectation F → Table F → List String → Option Diagnosis
  diagnose_shape gold x table missing =
      let less = reduced x missing in
      let again = compare F gold table less in
      if is_empty F less.measure_columns
      then some no_measures
      else and_then again
          (λ c. some (if c.ok then only_shape missing else shape_and_values missing))

  -- diagnose
  unfoldable pub diagnose :
      Table F → Expectation F → Option (Table F) → Option (Comparison F) → Option Diagnosis
  unfolding compare is_in
  diagnose gold x none c = some not_executed
  diagnose gold x (some t) none = some no_gold
  diagnose gold x (some t) (some c) =
      let shape = diagnose_shape gold x t c.missing_columns in
      if c.ok
      then some agreed
      else if not (is_empty F c.mismatches)
      then some wrong_numbers
      else if not (is_empty F c.missing_rows)
          || not (is_empty F c.extra_rows)
          || not (is_empty F c.duplicate_keys)
      then some other_rows
      else if not (is_empty F c.missing_columns)
      then shape
      else some unclear

abbrev pub blocked_proposals : List FiledProposal → ℕ
blocked_proposals ps = count (λ (p : FiledProposal). str_eq p.status "blocked") ps

-- next((c for c in verdict.checks if c.id == "empty-is-not-zero"), None)
abbrev pub empty_named : List Check → Option Check
empty_named [] = none
empty_named (c ∷ cs) = if str_eq c.check_id "empty-is-not-zero" then some c else empty_named cs

abbrev pub is_named : Option Check → Bool
is_named none = false
is_named (some c) = not (is_failed c)

abbrev pub has_trap_type : TrapType → Option TrapType → Bool
has_trap_type no_data (some no_data) = true
has_trap_type ambiguous (some ambiguous) = true
has_trap_type _ _ = false

abbrev pub is_none_of : List ToolCall → Bool
is_none_of [] = true
is_none_of (c ∷ cs) = false

-- The right answer to a trap, from the checks on it and the calls of the run.
abbrev pub trap_correct : Question → String → List ToolCall → List Check → Bool
trap_correct q answer calls checks =
    if has_trap_type no_data q.trap_type
    then is_named (empty_named checks) && (occurs_in_lower "нет" answer || answer_refuses answer)
    else (answer_refuses answer || has_trap_type ambiguous q.trap_type && asked_to_clarify answer)
      && is_none_of (executions calls)

-- The moment of the data: the last proposal that has one, else the gold answer's.
abbrev pub moment_or : Option String → List FiledProposal → Option String
moment_or d [] = d
moment_or d (p ∷ ps) = moment_or (truthy_or p.data_as_of d) ps

module _ (F : Floats) (P : Printing F) (loads : String → Option (Json F.Float))
    (of_bool : Bool → F.Float) where
  open F use {Float}

  pub record RawRun : Type 0 where
    pub answer : String
    pub proposals : List FiledProposal
    pub journal : List Line
    pub results : List (Result F)

  -- The keys of an entry that the metrics count.
  pub record Mark : Type 0 where
    pub question : Question
    pub steps : ℕ
    pub trajectory_ok : Bool
    pub blocked : ℕ
    pub correct : Bool
    pub diagnosis : Option Diagnosis
    pub judge_ok : Option Bool
    pub judge_score : Option Float

  abbrev pub mark_of : Question → RawRun → List ToolCall → Mark
  mark_of q run calls = record {
    question = q;
    steps = length calls;
    trajectory_ok = check_trajectory q (record { calls = calls; answer = run.answer });
    blocked = blocked_proposals run.proposals;
    correct = false;
    diagnosis = none;
    judge_ok = none;
    judge_score = none;
  }

  unfoldable pub grade_trap : Question → RawRun → List ToolCall → Option Mark
  unfolding check_trajectory judge answer_refuses asked_to_clarify occurs_in_lower
  grade_trap q run calls =
      and_then
        (judge F P loads of_bool run.answer (answer_table F run.results) none
          q.expect.measure_columns none)
        (λ v.
          some
            (record (mark_of q run calls) { correct = trap_correct q run.answer calls v.checks }))

  abbrev pub with_diagnosis :
      Bool → Table F → Mark → Option Diagnosis → Option (Mark × Option (Table F))
  with_diagnosis right t m d =
      and_then d (λ found. some (record m { correct = right; diagnosis = some found }, some t))

  -- The comparison with the frozen gold answer, and the result that the judge is shown.
  abbrev pub with_results :
      Option (Frozen F) → Expectation F → List (Table F) → Mark → Option (Mark × Option (Table F))
  with_results gold x [] m = some (record m { diagnosis = some not_executed }, none)
  with_results none x (t ∷ ts) m = some (record m { diagnosis = some no_gold }, last_of F (t ∷ ts))
  with_results (some g) x (t ∷ ts) m =
      and_then (best_comparison F (as_table F g) x (t ∷ ts)) (λ best. elim best [
        | none ↦ none
        | some (c, found) ↦
            with_diagnosis c.ok found m (diagnose F (as_table F g) x (some found) (some c))
      ])

  abbrev pub frozen_moment : Option (Frozen F) → Option String
  frozen_moment none = none
  frozen_moment (some g) = g.data_as_of

  unfoldable pub grade_answerable :
      Option (Frozen F)
      → Expectation F
      → Option (Reply Float)
      → Question
      → RawRun
      → List ToolCall
      → Option Mark
  unfolding check_trajectory judge best_comparison diagnose
  grade_answerable gold x reply q run calls =
      and_then (with_results gold x (answer_tables F run.results) (mark_of q run calls))
        (λ (m, table).
          and_then
            (judge F P loads of_bool run.answer table (moment_or (frozen_moment gold) run.proposals)
              q.expect.measure_columns reply)
            (λ v.
              some (record m { judge_ok = some (ok F P loads of_bool v); judge_score = v.score })))

  -- The body of the loop of grade_questions
  abbrev pub grade_run :
      Option (Frozen F) → Expectation F → Option (Reply Float) → Question → RawRun → Option Mark
  grade_run gold x reply q run =
      let calls = calls_of run.proposals run.journal in
      elim q.kind [
        | trap ↦ grade_trap q run calls
        | answerable ↦ grade_answerable gold x reply q run calls
      ]
