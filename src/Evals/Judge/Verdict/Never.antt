-- ===== src/Evals/Judge/Verdict/Never.antt =====
-- What a verdict of judge.py says of the answer, and what the model can and cannot change.
use test_analyst_agent.Common.{String, Bool, ◌≡◌, refl, sym, ap, Option, none, some, List, []}
use test_analyst_agent.Evals.Compare.Values.{Floats}
use test_analyst_agent.Evals.Compare.Tables.{Table}
use test_analyst_agent.Evals.Compare.Steps.{some_inj}
use test_analyst_agent.Evals.Judge.Numbers.{Printing}
use test_analyst_agent.Evals.Judge.Rules.{Check, check_answer}
use test_analyst_agent.Evals.Judge.Model.{
  Json, text, object, Fields, Reply, body, unavailable, crash, Judged, judged, fault, Opinion,
  judge_with_model, content_of, lookup,
}
use test_analyst_agent.Evals.Judge.Verdict.{Verdict, ok, judge, with_checks, with_model}

module _ (F : Floats) (P : Printing F) (loads : String → Option (Json F.Float))
    (of_bool : Bool → F.Float) where
  open F use {Float, of_text}

  with_model-checks :
      (cs : List Check) (o : Judged (Opinion F loads)) (v : Verdict F P loads of_bool)
      → with_model F P loads of_bool cs o ≡ some v
      → v.checks ≡ cs
  with_model-checks cs (judged o) v h =
      sym (ap (λ (x : Verdict F P loads of_bool). x.checks) (some_inj _ v h))
  with_model-checks cs (fault unavailable) v h =
      sym (ap (λ (x : Verdict F P loads of_bool). x.checks) (some_inj _ v h))
  with_model-checks cs (fault crash) v h = cc

  pub with_checks-checks :
      (reply : Option (Reply Float)) (cs : Option (List Check)) (v : Verdict F P loads of_bool)
      → with_checks F P loads of_bool reply cs ≡ some v
      → cs ≡ some v.checks
  with_checks-checks reply none v h = cc
  with_checks-checks none (some cs) v h =
      ap (λ (x : Verdict F P loads of_bool). some x.checks) (some_inj _ v h)
  with_checks-checks (some r) (some cs) v h =
      ap some (sym (with_model-checks cs (judge_with_model F loads of_bool r) v h))

  -- Whatever the model replies, a verdict that is reached has the checks, and so the outcome, of the
  -- verdict without the model: the model blocks nothing.
  pub judge-alone :
      (answer : String) (result : Option (Table F)) (as_of : Option String) (measures : List String)
      (reply : Option (Reply Float)) (v : Verdict F P loads of_bool)
      → judge F P loads of_bool answer result as_of measures reply ≡ some v
      → (w : Verdict F P loads of_bool) × (judge F P loads of_bool answer result as_of measures none
          ≡ some w)
        × (ok F P loads of_bool w ≡ ok F P loads of_bool v)
  unfolding judge
  judge-alone answer result as_of measures reply v h = (
    record { checks = v.checks; score = none; reasons = [] },
    ap (with_checks F P loads of_bool none)
        (with_checks-checks reply (check_answer F P answer result as_of measures) v h),
    refl,
  )

  crash-with_checks :
      (cs : Option (List Check)) (r : Reply Float)
      → judge_with_model F loads of_bool r ≡ fault crash
      → with_checks F P loads of_bool (some r) cs ≡ none
  crash-with_checks none r h = refl
  crash-with_checks (some cs) r h = rw h

  -- A model that answers with an object whose score is a text that is no number ends the judgement
  -- with an exception, whatever the answer is.
  pub judge-bad_score :
      (answer : String) (result : Option (Table F)) (as_of : Option String) (measures : List String)
      (j : Json Float) (s t : String) (fs : Fields Float)
      → content_of F loads j ≡ judged (text s)
      → loads s ≡ some (object fs)
      → lookup F loads "score" fs ≡ some (text t)
      → of_text t ≡ none
      → judge F P loads of_bool answer result as_of measures (some (body j)) ≡ none
  unfolding judge
  judge-bad_score answer result as_of measures j s t fs a b c d =
      crash-with_checks (check_answer F P answer result as_of measures) (body j)
        (bad j s t fs a b c d)
    where
      bad :
          (j : Json Float) (s t : String) (fs : Fields Float)
          → content_of F loads j ≡ judged (text s)
          → loads s ≡ some (object fs)
          → lookup F loads "score" fs ≡ some (text t)
          → of_text t ≡ none
          → judge_with_model F loads of_bool (body j) ≡ fault crash
      bad j s t fs a b c d = rw (a, b, c, d)
