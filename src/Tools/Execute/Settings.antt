-- ===== src/Tools/Execute/Settings.antt =====
-- A call of execute_query leaves the settings alone.
use test_analyst_agent.Common.{
  String, ◌≡◌, refl, ◌∙◌, inl, inr, none, some, arith, leb, Bool-cases, upsert, Option,
}
use test_analyst_agent.Store.Rows.{
  Store, Proposal, Outcome, done, raised, RateState, key_error, permission_error, value_error,
  integrity_error, zero_division, overflow_error,
}
use test_analyst_agent.Store.Journal.{running}
use test_analyst_agent.Store.Limits.{
  Allowance, allowed, cap_reached, too_often, take_token, take_row, state_of, save, rate_key,
}
use test_analyst_agent.Store.Proposals.{claim_for_execution, claim_row, get_proposal}
use test_analyst_agent.Tools.Replies.{Limits}
use test_analyst_agent.Tools.Execute.{
  Executing, Wanted, is_stale, perform, with_claim, admit, with_token, execute_query,
}

module _ (l : Limits) (env : Executing) (w : Wanted) where
  perform-settings : (p : Proposal) (s : Store) → (perform l env w p s).store.settings ≡ s.settings
  unfolding perform
  perform-settings p s = ground arith

  -- The settings that a claim leaves.
  abbrev Same : Store → Outcome (Store × Proposal) → Type 0
  Same s (done (s', p)) = s'.settings ≡ s.settings
  Same s (raised e) = Unit

  claim_row-Same : (user : String) (s : Store) (o : Option Proposal) → Same s (claim_row user s o)
  claim_row-Same user s none = tt
  claim_row-Same user s (some p) = ground arith

  with_claim-settings :
      (s : Store) (r : Outcome (Store × Proposal))
      → Same s r
      → (with_claim l env w s r).store.settings ≡ s.settings
  unfolding admit
  with_claim-settings s (done (s', p)) h = elim (Bool-cases (is_stale p.data_as_of env.as_of)) [
    | inl old ↦ rw old h
    | inr current ↦ rw current (perform-settings p s' ∙ h)
  ]
  with_claim-settings s (raised key_error) h = refl
  with_claim-settings s (raised permission_error) h = refl
  with_claim-settings s (raised value_error) h = refl
  with_claim-settings s (raised integrity_error) h = refl
  with_claim-settings s (raised zero_division) h = refl
  with_claim-settings s (raised overflow_error) h = refl

  admit-settings : (s : Store) → (admit l env w s).store.settings ≡ s.settings
  unfolding admit claim_for_execution
  admit-settings s =
      let h =
        with_claim-settings s (claim_row w.user s (get_proposal w.proposal_id s))
          (claim_row-Same w.user s (get_proposal w.proposal_id s)) in
      elim (Bool-cases (leb l.max_concurrent_total (running none 300 env.now s))) [
        | inl full ↦ rw full refl
        | inr room ↦
            rw room
              (elim (Bool-cases
                (leb l.max_concurrent_per_user (running (some w.user) 300 env.now s))) [
                  | inl full ↦ rw full refl
                  | inr free ↦ rw free h
                ])
      ]

  with_token-settings :
      (s : Store) (r : Outcome (RateState × Allowance))
      → (with_token l env w s (save s r)).store.settings ≡ s.settings
  unfolding execute_query
  with_token-settings s (raised e) = refl
  with_token-settings s (done (st, allowed)) =
      admit-settings (record s { rate_states = upsert rate_key st s.rate_states })
  with_token-settings s (done (st, cap_reached n c)) = refl
  with_token-settings s (done (st, too_often n)) = refl

  pub execute_query-settings : (s : Store) → (execute_query l env w s).store.settings ≡ s.settings
  unfolding execute_query take_token
  execute_query-settings s =
      with_token-settings s (take_row l.rate env.now (state_of l.rate w.user env.now s))
