-- ===== src/Evals/Grade/Traps.antt =====
-- When grade_reference.py counts a trap as answered right.
use test_analyst_agent.Common.{
  String, Bool, true, false, not, ◌&&◌, ◌||◌, ◌≡◌, refl, sym, ap, ◌∙◌, Option, none, some, List, [],
  ◌∷◌, Memᴰ, Mem-keep, arith, inl, inr, Bool-cases, str_eq,
}
use mathlib.Core.List.Memᴰ
use test_analyst_agent.Evals.Calls.{ToolCall, refused}
use test_analyst_agent.Evals.Dataset.{Question, no_data, ambiguous}
use test_analyst_agent.Evals.Compare.Values.{Floats}
use test_analyst_agent.Evals.Compare.Tables.{and_then}
use test_analyst_agent.Evals.Judge.Rules.{Check}
use test_analyst_agent.Evals.Judge.Verdict.{Verdict, judge}
use test_analyst_agent.Evals.Judge.Numbers.{Printing}
use test_analyst_agent.Evals.Judge.Model.{Json}
use test_analyst_agent.Evals.Grade.{
  Line, FiledProposal, analyst, executed_call, call_of, calls_by, by_id_over, calls_of, executions,
  answer_refuses, asked_to_clarify,
}
use test_analyst_agent.Evals.Grade.Questions.{
  RawRun, Mark, mark_of, answer_table, grade_trap, has_trap_type, is_none_of, trap_correct,
}

-- A line on an execution that the analyst's journal closes.
pub record Ends (e : Line) : Type 0 where
  pub own : e.user_id ≡ analyst
  pub executes : e.tool ≡ "execute_query"
  pub over : str_eq e.outcome "started" ≡ false

call_of-Ends :
    (d : List (String × FiledProposal)) (e : Line) → Ends e → call_of d e ≡ executed_call e ∷ []
call_of-Ends d e n = rw (n.executes, n.over) refl

calls_by-Ends :
    (d : List (String × FiledProposal)) (e : Line) (es : List Line)
    → Ends e
    → Memᴰ e es
    → Memᴰ (executed_call e) (calls_by d es)
calls_by-Ends d e [] n m = absurd (Memᴰ.not-nil m)
calls_by-Ends d e (f ∷ es) n m = elim (Memᴰ.cases_cons m) [
  | inl same ↦ rw (← same, n.own, call_of-Ends d e n) (Memᴰ.head refl)
  | inr rest ↦
      let there = calls_by-Ends d e es n rest in
      elim (Bool-cases (str_eq f.user_id analyst)) [
        | inl own ↦ rw own (Memᴰ.append_right (call_of d f) there)
        | inr other ↦ rw other there
      ]
]

no-executions : (c : ToolCall) (cs : List ToolCall) → is_none_of cs ≡ true → Memᴰ c cs → ⊥
no-executions c [] h m = Memᴰ.not-nil m
no-executions c (x ∷ cs) h m = absurd (ground arith)

executions-fail :
    (e : Line) (calls : List ToolCall)
    → Ends e
    → Memᴰ (executed_call e) calls
    → is_none_of (executions calls) ≡ true
    → e.has_error ≡ true
executions-fail e calls n m none_of = elim (Bool-cases e.has_error) [
  | inl failed ↦ failed
  | inr fine ↦ absurd (
      no-executions (executed_call e) (executions calls) none_of (
        Mem-keep (λ (c : ToolCall). str_eq c.name "execute_query" && not (refused c))
          (executed_call e) calls m (rw (n.executes, fine) refl)))
]

both : (a b : Bool) → a && b ≡ true → (a ≡ true) × (b ≡ true)
both true b h = (refl, h)
both false b h = cc

trap_other :
    (q : Question) (answer : String) (calls : List ToolCall) (checks : List Check)
    → has_trap_type no_data q.trap_type ≡ false
    → trap_correct q answer calls checks ≡ true
    → (answer_refuses answer || has_trap_type ambiguous q.trap_type && asked_to_clarify answer)
        && is_none_of (executions calls)
      ≡ true
trap_other q answer calls checks other h = rw other at h

-- What the answer to a trap did, and the calls before it.
pub record Refused (q : Question) (answer : String) (journal : List Line) : Type 0 where
  pub said :
      answer_refuses answer || has_trap_type ambiguous q.trap_type && asked_to_clarify answer ≡ true
  pub failed : (e : Line) → Memᴰ e journal → Ends e → e.has_error ≡ true

module _ (F : Floats) (P : Printing F) (loads : String → Option (Json F.Float))
    (of_bool : Bool → F.Float) where
  correct_of : Option (Mark F P loads of_bool) → Bool
  correct_of none = false
  correct_of (some m) = m.correct

  graded_trap :
      (q : Question) (run : RawRun F P loads of_bool) (calls : List ToolCall)
      (m : Mark F P loads of_bool)
      → grade_trap F P loads of_bool q run calls ≡ some m
      → (checks : List Check) × (m.correct ≡ trap_correct q run.answer calls checks)
  unfolding grade_trap correct_of
  graded_trap q run calls m h =
      by_verdict
        (judge F P loads of_bool run.answer (answer_table F run.results) none
          q.expect.measure_columns none)
        h
    where
      by_verdict :
          (o : Option (Verdict F P loads of_bool))
          → and_then o (λ v. some (record (mark_of F P loads of_bool q run calls) {
            correct = trap_correct q run.answer calls v.checks;
          }))
            ≡ some m
          → (checks : List Check) × (m.correct ≡ trap_correct q run.answer calls checks)
      by_verdict none e = cc
      by_verdict (some v) e = (v.checks, sym (ap correct_of e))

  -- A trap other than one on missing data that is counted as answered right: the answer has a mark of a
  -- refusal, or asks back where the question is ambiguous, and every line of the analyst's journal on an
  -- execution, but for those that start one, carries an error.
  pub grade_trap-Refused :
      (q : Question) (run : RawRun F P loads of_bool) (m : Mark F P loads of_bool)
      → grade_trap F P loads of_bool q run (calls_of run.proposals run.journal) ≡ some m
      → m.correct ≡ true
      → has_trap_type no_data q.trap_type ≡ false
      → Refused q run.answer run.journal
  unfolding calls_of
  grade_trap-Refused q run m h right other =
      let calls = calls_by (by_id_over [] run.proposals) run.journal in
      let (checks, e) = graded_trap q run calls m h in
      let (said, quiet) =
        both
          (answer_refuses run.answer
            || has_trap_type ambiguous q.trap_type && asked_to_clarify run.answer)
          (is_none_of (executions calls))
          (trap_other q run.answer calls checks other (sym e ∙ right)) in
      record {
        said = said;
        failed = λ line there n.
            executions-fail line calls n
              (calls_by-Ends (by_id_over [] run.proposals) line run.journal n there) quiet;
      }
