-- ===== src/Tests/Judge.antt =====
-- judge of judge.py on short answers, with whole numbers for the floats and the spellings of 1000.
use test_analyst_agent.Common.{
  ℕ, String, Bool, ◌≡◌, refl, Option, none, some, [], ◌∷◌, upper, str_eq, if◌then◌else◌,
}
use test_analyst_agent.Common.Int.{pos}
use test_analyst_agent.Evals.Compare.Values.{Floats, whole}
use test_analyst_agent.Evals.Compare.Tables.{Table}
use test_analyst_agent.Evals.Judge.Numbers.{Printing, spellings, numbers_in}
use test_analyst_agent.Evals.Judge.Rules.{Status, passed, numbers_status}
use test_analyst_agent.Evals.Judge.Model.{
  Json, object, array, text, cons, nil, field, end, body, no_answer,
}
use test_analyst_agent.Evals.Judge.Verdict.{Verdict, not_asked, ok, judge}
use test_analyst_agent.Evals.Judge.Verdict.Never.{judge-alone, judge-bad_score}
use test_analyst_agent.Tests.Compare.{floats}

abbrev pub thousand : Floats
thousand = record floats { text = λ x. "1000.0"; whole_text = λ n. "1000" }

abbrev pub printing : Printing thousand
printing = record {
  round_to = λ n x. x;
  round_int = pos;
  fixed = λ x. "1,000.00";
  fixed_int = λ n. "1,000.00";
}

spellings_of_1000 : spellings thousand printing 1000 ≡ "1" ∷ "1000" ∷ []
unfolding spellings
spellings_of_1000 = refl

numbers_run_together : numbers_in "10, 20 и 30" ≡ "1020" ∷ "30" ∷ []
unfolding numbers_in
numbers_run_together = refl

abbrev revenue : Table thousand
revenue = record { columns = "REVENUE" ∷ []; rows = (whole (pos 1000) ∷ []) ∷ [] }

-- The answer names a number that is not in the result.
abbrev wrong_answer : String
wrong_answer = "Выручка 1 млн, источник: отчёт"

wrong_number_passes :
    numbers_status thousand printing (some revenue) ("REVENUE" ∷ []) wrong_answer ≡ some passed
unfolding numbers_status upper
wrong_number_passes = refl

abbrev pub loads : String → Option (Json ℕ)
loads s = if str_eq s "{score}" then some (object (field "score" (text "high") end)) else none

abbrev pub of_bool : Bool → ℕ
of_bool b = if b then 1 else 0

abbrev pub good_answer : String
good_answer = "Выручка 1 000, период 2021"

abbrev verdict : Verdict thousand printing loads of_bool
verdict = record {
  checks =
      record { check_id = "empty-is-not-zero"; status = Status.skipped }
      ∷ record { check_id = "numbers-from-the-result"; status = passed }
      ∷ record { check_id = "data-as-of"; status = Status.skipped }
      ∷ record { check_id = "how-obtained"; status = passed }
      ∷ [];
  score = none;
  reasons = not_asked ∷ [];
}

judged_without_network :
    judge thousand printing loads of_bool good_answer
      (some revenue)
      none
      ("REVENUE" ∷ [])
      (some no_answer)
    ≡ some verdict
unfolding judge upper
judged_without_network = refl

judge-alone_example :
    (w : Verdict thousand printing loads of_bool) × (judge thousand printing loads of_bool
        good_answer
        (some revenue)
        none
        ("REVENUE" ∷ [])
        none
      ≡ some w)
    × (ok thousand printing loads of_bool w ≡ ok thousand printing loads of_bool verdict)
judge-alone_example =
    judge-alone thousand printing loads of_bool good_answer (some revenue) none ("REVENUE" ∷ [])
      (some no_answer) verdict judged_without_network

abbrev reply : Json ℕ
reply = object (
    field "choices"
      (array
        (cons (object (field "message" (object (field "content" (text "{score}") end)) end)) nil))
      end)

judge-bad_score_example :
    judge thousand printing loads of_bool good_answer
      (some revenue)
      none
      ("REVENUE" ∷ [])
      (some (body reply))
    ≡ none
judge-bad_score_example =
    judge-bad_score thousand printing loads of_bool good_answer (some revenue) none ("REVENUE" ∷ [])
      reply "{score}" "high" (field "score" (text "high") end) refl refl refl refl
