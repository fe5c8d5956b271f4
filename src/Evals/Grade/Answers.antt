-- ===== src/Evals/Grade/Answers.antt =====
-- When grade_reference.py counts an answerable question as answered right.
use test_analyst_agent.Common.{
  String, Bool, true, false, ◌≡◌, refl, ap, ◌∙◌, Option, none, some, List, [], ◌∷◌, Memᴰ, arith,
}
use test_analyst_agent.Evals.Calls.{ToolCall}
use test_analyst_agent.Evals.Dataset.{Question}
use test_analyst_agent.Evals.Compare.Values.{Floats}
use test_analyst_agent.Evals.Compare.Tables.{Table, and_then}
use test_analyst_agent.Evals.Compare.Buckets.{Comparison}
use test_analyst_agent.Evals.Compare.Verdict.{Expectation, compare}
use test_analyst_agent.Evals.Compare.Steps.{and_then-some}
use test_analyst_agent.Evals.Judge.Numbers.{Printing}
use test_analyst_agent.Evals.Judge.Model.{Json, Reply}
use test_analyst_agent.Evals.Judge.Verdict.{judge}
use test_analyst_agent.Evals.Grade.Questions.{
  Frozen, Compared, RawRun, Mark, as_table, answer_tables, best_comparison, diagnose,
  with_diagnosis, with_results, mark_of, grade_answerable, frozen_moment, moment_or,
}
use test_analyst_agent.Evals.Grade.Best.{best_comparison-Chosen}

module _ (F : Floats) (P : Printing F) (loads : String → Option (Json F.Float))
    (of_bool : Bool → F.Float) where
  open F use {Float}

  abbrev Shown : Type 0
  Shown = Mark F P loads of_bool × Option (Table F)

  -- A result of the run that agrees with the gold answer.
  pub record Agrees (gold : Option (Frozen F)) (x : Expectation F) (results : List (Table F))
      : Type 0 where
    pub answer : Frozen F
    pub frozen : gold ≡ some answer
    pub table : Table F
    pub among : Memᴰ table results
    pub comparison : Comparison F
    pub compared : compare F (as_table F answer) table x ≡ some comparison
    pub right : comparison.ok ≡ true

  correct_step : Option Shown → Bool
  correct_step none = false
  correct_step (some (m, t)) = m.correct

  chosen_step :
      (g : Frozen F) (x : Expectation F) (tables : List (Table F)) (m : Mark F P loads of_bool)
      (best : Option (Option (Compared F))) (r : Shown)
      → best_comparison F (as_table F g) x tables ≡ best
      → and_then best (λ b. elim b [
        | none ↦ none
        | some (c, found) ↦
            with_diagnosis F P loads of_bool c.ok found m
              (diagnose F (as_table F g) x (some found) (some c))
      ])
        ≡ some r
      → r.0.correct ≡ true
      → Agrees (some g) x tables
  unfolding correct_step
  chosen_step g x tables m none r e h right = cc
  chosen_step g x tables m (some none) r e h right = cc
  chosen_step g x tables m (some (some (c, t))) r e h right =
      let (d, e', h') = and_then-some (diagnose F (as_table F g) x (some t) (some c)) _ r h in
      let chosen = best_comparison-Chosen F (as_table F g) x tables c t e in
      record {
        answer = g;
        frozen = refl;
        table = t;
        among = chosen.among;
        comparison = c;
        compared = chosen.compared;
        right = ap correct_step h' ∙ right;
      }

  with_results-Agrees :
      (gold : Option (Frozen F)) (x : Expectation F) (tables : List (Table F))
      (m : Mark F P loads of_bool) (r : Shown)
      → m.correct ≡ false
      → with_results F P loads of_bool gold x tables m ≡ some r
      → r.0.correct ≡ true
      → Agrees gold x tables
  unfolding correct_step grade_answerable
  with_results-Agrees gold x [] m r w h right = absurd (ground (arith, ap correct_step h, w, right))
  with_results-Agrees none x (t ∷ ts) m r w h right =
      absurd (ground (arith, ap correct_step h, w, right))
  with_results-Agrees (some g) x (t ∷ ts) m r w h right =
      chosen_step g x (t ∷ ts) m (best_comparison F (as_table F g) x (t ∷ ts)) r refl h right

  correct_of : Option (Mark F P loads of_bool) → Bool
  correct_of none = false
  correct_of (some m) = m.correct

  -- An answerable question that is counted as answered right has a frozen gold answer, and one of the
  -- results that the agent got in the run was compared with it and agrees.
  pub grade_answerable-Agrees :
      (gold : Option (Frozen F)) (x : Expectation F) (reply : Option (Reply Float)) (q : Question)
      (run : RawRun F P loads of_bool) (calls : List ToolCall) (m : Mark F P loads of_bool)
      → grade_answerable F P loads of_bool gold x reply q run calls ≡ some m
      → m.correct ≡ true
      → Agrees gold x (answer_tables F run.results)
  unfolding grade_answerable correct_of
  grade_answerable-Agrees gold x reply q run calls m h right =
      let tables = answer_tables F run.results in
      let ((m1, t), e, h') =
        and_then-some
          (with_results F P loads of_bool gold x tables (mark_of F P loads of_bool q run calls)) _ m
          h in
      let (v, e', h'') =
        and_then-some
          (judge F P loads of_bool run.answer t
            (moment_or (frozen_moment F P loads of_bool gold) run.proposals)
            q.expect.measure_columns reply)
          _ m h' in
      with_results-Agrees gold x tables (mark_of F P loads of_bool q run calls) (m1, t) refl e
        (ap correct_of h'' ∙ right)
