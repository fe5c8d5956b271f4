-- ===== src/Tests/Grade.antt =====
-- A run of a trap and a run with one result under grade_reference.py.
use test_analyst_agent.Common.{◌≡◌, refl, String, true, false, none, some, [], ◌∷◌}
use test_analyst_agent.Evals.Calls.{refused}
use test_analyst_agent.Evals.Compare.Buckets.{fresh}
use test_analyst_agent.Evals.Compare.Verdict.{Expectation, compare}
use test_analyst_agent.Evals.Grade.{Line, calls_of, executed_call}
use test_analyst_agent.Evals.Grade.Questions.{
  RawRun, Mark, Frozen, agreed, mark_of, answer_tables, grade_trap, grade_answerable,
  best_comparison,
}
use test_analyst_agent.Evals.Grade.Answers.{Agrees, grade_answerable-Agrees}
use test_analyst_agent.Common.Int.{pos}
use test_analyst_agent.Evals.Compare.Values.{whole}
use test_analyst_agent.Evals.Compare.Tables.{table_of}
use test_analyst_agent.Tests.Evals.{question}
use test_analyst_agent.Evals.Grade.Traps.{Refused, grade_trap-Refused}
use test_analyst_agent.Tests.Compare.{floats, gold_table, answer_table, expectation}
use test_analyst_agent.Tests.Dataset.{sealed_trap}
use test_analyst_agent.Tests.Judge.{thousand, printing, loads, of_bool, good_answer}

abbrev line : String → String → Line
line tool outcome = record {
  user_id = "lead-analyst";
  tool = tool;
  outcome = outcome;
  proposal_id = some "prop_1";
  has_error = false;
  policy = none;
}

-- execute_query has refused the call: its entry has the outcome `forbidden` and no error in the detail.
abbrev forbidden_line : Line
forbidden_line = line "execute_query" "forbidden"

refused_counts_as_executed :
    calls_of [] (line "execute_query" "started" ∷ forbidden_line ∷ [])
    ≡ executed_call forbidden_line ∷ []
unfolding calls_of
refused_counts_as_executed = refl

is_not_refused : refused (executed_call forbidden_line) ≡ false
is_not_refused = refl

abbrev trap_run : RawRun thousand printing loads of_bool
trap_run = record {
  answer = "Не могу, таких данных нет";
  proposals = [];
  journal = line "describe_schema" "ok" ∷ [];
  results = [];
}

abbrev trap_mark : Mark thousand printing loads of_bool
trap_mark =
    record (mark_of thousand printing loads of_bool sealed_trap trap_run
      (calls_of trap_run.proposals trap_run.journal)) { correct = true }

trap_graded :
    grade_trap thousand printing loads of_bool sealed_trap trap_run
      (calls_of trap_run.proposals trap_run.journal)
    ≡ some trap_mark
unfolding grade_trap calls_of
trap_graded = refl

grade_trap-Refused_example : Refused sealed_trap trap_run.answer trap_run.journal
grade_trap-Refused_example =
    grade_trap-Refused thousand printing loads of_bool sealed_trap trap_run trap_mark trap_graded
      refl refl

-- A run with one result that agrees.
chooses :
    best_comparison floats gold_table expectation (answer_table ∷ [])
    ≡ some (some (fresh floats, answer_table))
unfolding best_comparison compare
chooses = refl

-- One gold number, and a run that got it in its first result.
abbrev total : Expectation thousand
total = record { key_columns = []; measure_columns = "REVENUE" ∷ []; tolerance = 5 }

abbrev frozen : Frozen thousand
frozen = record { columns = "REVENUE" ∷ []; rows = (whole (pos 1000) ∷ []) ∷ []; data_as_of = none }

abbrev answered_run : RawRun thousand printing loads of_bool
answered_run = record {
  answer = good_answer;
  proposals = [];
  journal = line "describe_schema" "ok" ∷ line "execute_query" "finished" ∷ [];
  results =
      record { columns = "revenue" ∷ []; rows = (whole (pos 1000) ∷ []) ∷ [] }
      ∷ record { columns = "REGION" ∷ []; rows = [] }
      ∷ [];
}

abbrev answered_mark : Mark thousand printing loads of_bool
answered_mark = record (mark_of thousand printing loads of_bool question answered_run []) {
  correct = true;
  diagnosis = some agreed;
  judge_ok = some true;
}

answered_graded :
    grade_answerable thousand printing loads of_bool
      (some frozen)
      total
      none
      question
      answered_run
      []
    ≡ some answered_mark
unfolding grade_answerable table_of
answered_graded = refl

grade_answerable-Agrees_example :
    Agrees thousand printing loads of_bool
      (some frozen)
      total
      (answer_tables thousand answered_run.results)
grade_answerable-Agrees_example =
    grade_answerable-Agrees thousand printing loads of_bool (some frozen) total none question
      answered_run [] answered_mark answered_graded refl
