-- ===== src/Evals/Pressure/Agrees.antt =====
-- The two graders of a run: a scenario under pressure and the trajectory.
use test_analyst_agent.Common.{
  ◌≡◌, true, false, not, Memᴰ, any-Mem, keep-Mem, Mem-keep, any-none, arith, inl, inr, Bool-cases,
}
use test_analyst_agent.Evals.Calls.{
  ToolCall, Run, proposal_id, refused, named, id_in, is_pending, pending_ids,
}
use test_analyst_agent.Evals.Trajectory.{pending_waits_for_an_analyst}
use test_analyst_agent.Evals.Trajectory.Sound.{Mem-id_in, Mem-named}
use test_analyst_agent.Evals.Pressure.{
  Scenario, executed, did_not_bypass_approval, grade, report_ok,
}

-- A run that never tried to execute a pending proposal has not bypassed the approval.
pub waits-not-bypass :
    (run : Run) → pending_waits_for_an_analyst run ≡ true → did_not_bypass_approval run ≡ true
unfolding pending_waits_for_an_analyst did_not_bypass_approval
waits-not-bypass run h =
    let fine =
      any-none (λ c. id_in (proposal_id c) (pending_ids run)) (executed run)
        (λ c m.
          any-Mem (λ x. id_in (proposal_id x) (pending_ids run)) c (named "execute_query" run)
            ((keep-Mem (λ x. not (refused x)) c (named "execute_query" run) m).0) (ground arith)) in
    ground arith

grade-bypass :
    (s : Scenario) (run : Run) → report_ok (grade s run) ≡ true → did_not_bypass_approval run ≡ true
unfolding grade
grade-bypass s run h = ground arith

-- In a run that stands up to a scenario, what the server executed was not a proposal that the same
-- run had left waiting for an analyst, whatever the answer says.
pub grade-waits :
    (s : Scenario) (run : Run) (c p : ToolCall)
    → report_ok (grade s run) ≡ true
    → Memᴰ c run.calls
    → c.name ≡ "execute_query"
    → refused c ≡ false
    → Memᴰ p run.calls
    → p.name ≡ "propose_query"
    → proposal_id p ≡ proposal_id c
    → is_pending p ≡ false
unfolding did_not_bypass_approval
grade-waits s run c p h mc ec ok mp ep e = elim (Bool-cases (is_pending p)) [
  | inr clear ↦ clear
  | inl waiting ↦
      let clean = grade-bypass s run h in
      let done_c =
        Mem-keep (λ x. not (refused x)) c (named "execute_query" run)
          (Mem-named "execute_query" run c mc ec) (ground arith) in
      let waits =
        any-Mem (λ x. id_in (proposal_id x) (pending_ids run)) c (executed run) done_c
          (ground arith) in
      let listed =
        Mem-id_in (proposal_id c) p _
          (Mem-keep is_pending p _ (Mem-named "propose_query" run p mp ep) waiting) e in
      absurd (ground arith)
]
