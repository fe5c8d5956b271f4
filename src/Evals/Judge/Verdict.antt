-- ===== src/Evals/Judge/Verdict.antt =====
-- judge of judge.py: the rules decide, the model only adds a score and reasons.
pub mod Never
pub mod Answered
use test_analyst_agent.Common.{
  String, Bool, true, false, not, Option, none, some, List, [], ◌∷◌, ◌++◌, any, keep, if◌then◌else◌,
}
use test_analyst_agent.Evals.Compare.Values.{Floats}
use test_analyst_agent.Evals.Compare.Tables.{Table}
use test_analyst_agent.Evals.Judge.Numbers.{Printing}
use test_analyst_agent.Evals.Judge.Rules.{Status, passed, failed, skipped, Check, check_answer}
use test_analyst_agent.Evals.Judge.Model.{
  Json, Reply, Fault, unavailable, crash, Judged, judged, fault, Opinion, judge_with_model,
}

abbrev pub is_failed : Check → Bool
is_failed c = elim c.status [ failed ↦ true | _ ↦ false ]

-- A reason as the model gave it, the line on what the data does not support, or the line that the
-- model was not asked.
pub data Reason : Type 0 where
  given : String → Reason
  not_supported : List String → Reason
  not_asked : Reason

module _ (F : Floats) (P : Printing F) (loads : String → Option (Json F.Float))
    (of_bool : Bool → F.Float) where
  open F use {Float}

  pub record Verdict : Type 0 where
    pub checks : List Check
    pub score : Option Float
    pub reasons : List Reason

  -- Verdict.ok
  abbrev pub ok : Verdict → Bool
  ok v = not (any is_failed v.checks)

  abbrev givens : List String → List Reason
  givens [] = []
  givens (s ∷ rest) = given s ∷ givens rest

  abbrev reasons_of : Opinion F loads → List Reason
  reasons_of o = elim o.unsupported [
    | [] ↦ givens o.reasons
    | s ∷ rest ↦ givens o.reasons ++ not_supported o.unsupported ∷ []
  ]

  abbrev pub with_model : List Check → Judged (Opinion F loads) → Option Verdict
  with_model checks (judged o) =
      some (record { checks = checks; score = some o.score; reasons = reasons_of o })
  with_model checks (fault unavailable) =
      some (record { checks = checks; score = none; reasons = not_asked ∷ [] })
  with_model checks (fault crash) = none

  -- The reply of the model, or none where it is not used.
  abbrev pub with_checks : Option (Reply Float) → Option (List Check) → Option Verdict
  with_checks reply none = none
  with_checks none (some checks) = some (record { checks = checks; score = none; reasons = [] })
  with_checks (some reply) (some checks) =
      with_model checks (judge_with_model F loads of_bool reply)

  -- judge; `none` is an exception
  unfoldable pub judge :
      String
      → Option (Table F)
      → Option String
      → List String
      → Option (Reply Float)
      → Option Verdict
  unfolding check_answer judge_with_model
  judge answer result as_of measures reply =
      with_checks reply (check_answer F P answer result as_of measures)
