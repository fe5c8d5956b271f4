-- ===== src/Tests/Histories.antt =====
-- Calls of the tools and the panel, at a concrete store.
use test_analyst_agent.Common.{◌+◌, ◌≤◌, ◌≡◌, ◌↔◌, ◌⊎◌, refl, some, List, [], ◌∷◌, find, update}
use test_analyst_agent.Store.Rows.{executed, pending, auto, done}
use test_analyst_agent.Store.Proposals.{get_proposal, claim_for_execution, replace}
use test_analyst_agent.Tools.Replies.{run, PolicyReason}
use test_analyst_agent.Tools.Policy.{policy, policy_status}
use test_analyst_agent.Tools.Policy.Thresholds.{policy-auto_iff, RunsItself}
use test_analyst_agent.Tools.Execute.{execute_query, admit, perform}
use test_analyst_agent.Sanity.{check, observe_column, looks_like_money}
use test_analyst_agent.Store.Limits.{take_row}
use test_analyst_agent.Panel.{signed_in}
use test_analyst_agent.System.{Call, executes, approves, proposes, history}
use test_analyst_agent.System.Once.{history-Bounded, runs_of, runs_left}
use test_analyst_agent.System.Approval.{execute_query-Approved, Approved}
use test_analyst_agent.System.Edits.{edited_text_runs, both_calls, approved_edit}
use test_analyst_agent.Samples.{
  default_limits, sample_store, sample_proposal, sample_verdict, executing, wants, panel_session,
  service, morning, proposing, asked,
}

first_run :
    (execute_query default_limits executing (wants "prop_2") sample_store).queries
    ≡ run "prop_2" "SELECT 1" 5 30 ∷ []
unfolding execute_query take_row find admit perform update check observe_column looks_like_money
first_run = refl

-- The analyst approves one proposal, the agent runs it and tries again, and runs another.
abbrev calls : List Call
calls =
    approves panel_session "prop_1" "lead" "" morning
    ∷ executes executing (wants "prop_1")
    ∷ executes executing (wants "prop_1")
    ∷ executes executing (wants "prop_2")
    ∷ proposes proposing asked
    ∷ []

history-Bounded_example :
    runs_of "prop_1" (history service calls sample_store).1
      + runs_left (get_proposal "prop_1" (history service calls sample_store).0)
    ≤ 1
unfolding get_proposal find
history-Bounded_example = history-Bounded service calls "prop_1" sample_store

execute_query-Approved_example :
    ((execute_query default_limits executing (wants "prop_3") sample_store).queries ≡ [])
    ⊎ Approved default_limits executing
        (wants "prop_3")
        sample_store
        (execute_query default_limits executing (wants "prop_3") sample_store).queries
execute_query-Approved_example =
    execute_query-Approved default_limits executing (wants "prop_3") sample_store

policy-auto_iff_example :
    ((r : PolicyReason) × (policy default_limits sample_store sample_verdict (some 4) ≡ some r)
      × (policy_status r ≡ auto))
    ↔ RunsItself default_limits sample_store sample_verdict (some 4)
policy-auto_iff_example = policy-auto_iff default_limits sample_store sample_verdict (some 4)

edited_text_runs_example :
    let after =
      both_calls service panel_session "prop_1" "prop_7" "DELETE FROM sh.sales" "lead" "" 1 2
        sample_store in
    let edit =
      approved_edit "prop_7" "DELETE FROM sh.sales" "lead" "" 1 2
        (sample_proposal "prop_1" pending) in
    (get_proposal "prop_7" after ≡ some edit)
    × (edit.sql ≡ "DELETE FROM sh.sales")
    × (edit.checks ≡ [])
    × (claim_for_execution "prop_7" "anna" after
        ≡ done
            (replace (record edit { status = executed }) after, record edit { status = executed }))
unfolding get_proposal find signed_in
edited_text_runs_example =
    edited_text_runs service panel_session "prop_1" "prop_7" "DELETE FROM sh.sales" "lead" "" 1 2
      (sample_proposal "prop_1" pending) sample_store refl refl refl refl
