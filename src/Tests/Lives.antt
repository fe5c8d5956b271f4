-- ===== src/Tests/Lives.antt =====
-- The life of a proposal and the policy's switches, at a concrete store.
use test_analyst_agent.Common.{◌≡◌, refl, true, some, [], ◌∷◌, List, find, is_blank, upsert, update}
use test_analyst_agent.Common.Decimal.{python_int}
use test_analyst_agent.Store.Rows.{Store, pending, done}
use test_analyst_agent.Store.Proposals.{get_proposal}
use test_analyst_agent.Store.Settings.{setting, set_setting, setting_row, policy_entry}
use test_analyst_agent.Store.Limits.{take_token, take_row}
use test_analyst_agent.Store.Journal.{running}
use test_analyst_agent.Tools.Replies.{explain, exception}
use test_analyst_agent.Tools.Execute.{run_of}
use test_analyst_agent.Tools.Propose.{propose_query, propose_checked}
use test_analyst_agent.Tools.Policy.{policy}
use test_analyst_agent.Panel.{signed_in, set_policy}
use test_analyst_agent.System.{Call, executes, approves, proposes, step, history}
use test_analyst_agent.System.Life.{LivesBy}
use test_analyst_agent.System.Life.Steps.{step-Lives}
use test_analyst_agent.System.Held.{Held, history-Held}
use test_analyst_agent.System.Once.{runs_of}
use test_analyst_agent.System.Answered.{approved-runs}
use test_analyst_agent.System.Switches.{is_auto, history-auto}
use test_analyst_agent.System.Thresholds.{propose-bad_threshold}
use test_analyst_agent.Samples.{
  default_limits, sample_store, sample_proposal, sample_verdict, executing, wants, panel_session,
  service, morning, proposing, asked,
}

step-Lives_example :
    LivesBy service
      (approves panel_session "prop_1" "lead" "" morning)
      "prop_1"
      sample_store
      (step service (approves panel_session "prop_1" "lead" "" morning) sample_store).0
step-Lives_example =
    step-Lives service (approves panel_session "prop_1" "lead" "" morning) "prop_1" sample_store

-- The agent tries what waits, and proposes it anew; the analyst approves another proposal.
abbrev no_approval : List Call
no_approval =
    executes executing (wants "prop_1")
    ∷ proposes proposing asked
    ∷ approves panel_session "prop_2" "lead" "" morning
    ∷ executes executing (wants "prop_1")
    ∷ []

history-Held_example :
    (runs_of "prop_1" (history service no_approval sample_store).1 ≡ 0)
    × Held (get_proposal "prop_1" (history service no_approval sample_store).0)
unfolding get_proposal find signed_in
history-Held_example = history-Held service no_approval "prop_1" sample_store refl refl

approved-runs_example :
    (history service
      (approves panel_session "prop_1" "lead" "" morning ∷ executes executing (wants "prop_1") ∷ [])
      sample_store).1
    ≡ run_of default_limits (sample_proposal "prop_1" pending) ∷ []
unfolding get_proposal find signed_in take_token take_row running
approved-runs_example =
    approved-runs service panel_session executing (wants "prop_1") "lead" "" morning
      (sample_proposal "prop_1" pending) sample_store _ refl refl refl refl refl refl refl refl

-- The switch is off, and a proposal is AUTO from before.
abbrev closed_store : Store
closed_store = record sample_store {
  settings =
      record {
        key = "auto_execute";
        value = "off";
        updated_at = 1;
        updated_by = "lead";
        reason = "incident";
      }
      ∷ [];
}

stays_auto :
    is_auto (get_proposal "prop_2" (history service (proposes proposing asked ∷ []) closed_store).0)
    ≡ true
unfolding get_proposal find history step propose_query policy propose_checked
stays_auto = refl

history-auto_example : is_auto (get_proposal "prop_2" closed_store) ≡ true
unfolding setting find
history-auto_example =
    history-auto service (proposes proposing asked ∷ []) "prop_2" closed_store refl refl stays_auto

abbrev opened_store : Store
opened_store = record closed_store {
  settings = setting_row "auto_execute" "on" "lead" "all clear" morning ∷ [];
  journal = policy_entry "lead" "all clear" morning ∷ [];
}

opens : set_setting "auto_execute" "on" "lead" "all clear" morning closed_store ≡ done opened_store
unfolding set_setting is_blank upsert find update
opens = refl

propose-bad_threshold_example :
    let after =
      (set_policy panel_session "auto_max_rows" "many" "lead" "more room" morning sample_store).0 in
    propose_query default_limits proposing asked sample_verdict after
    ≡ record { store = after; queries = explain "SELECT 1" ∷ []; reply = exception }
unfolding signed_in setting find is_blank python_int
propose-bad_threshold_example =
    propose-bad_threshold default_limits panel_session "many" "lead" "more room" morning
      sample_store proposing asked sample_verdict (record { lines = []; estimated_rows = some 4 })
      refl refl refl refl refl refl
