-- ===== src/Tools/Execute/Effects.antt =====
-- What a call of execute_query can do to the proposals and send to the database.
use test_analyst_agent.Common.{
  ◌≡◌, refl, inl, inr, Option, none, some, List, [], ◌∷◌, arith, leb, if◌then◌else◌, Bool-cases,
  upsert,
}
use test_analyst_agent.Store.Rows.{
  Store, Proposal, Outcome, done, raised, RateState, key_error, permission_error, value_error,
  integrity_error, zero_division, overflow_error, Result,
}
use test_analyst_agent.Store.Journal.{running}
use test_analyst_agent.Store.Limits.{
  Allowance, allowed, cap_reached, too_often, take_token, take_row, state_of, save, rate_key,
}
use test_analyst_agent.Store.Proposals.{claim_for_execution}
use test_analyst_agent.Sanity.{Observation}
use test_analyst_agent.Tools.Replies.{Limits, Query, Step}
use test_analyst_agent.Tools.Execute.{
  Executing, Wanted, run_of, is_stale, perform, with_report, with_claim, admit, with_token,
  execute_query,
}

-- The proposals that a call leaves, and its statements.
abbrev pub Leaves : Step → List Proposal → List Query → Type 0
Leaves t ps qs = (t.store.proposals ≡ ps) × (t.queries ≡ qs)

with_report-Leaves :
    (l : Limits) (env : Executing) (w : Wanted) (p : Proposal) (s : Store) (r : Result)
    (o : Option (List Observation))
    → Leaves (with_report l env w p s r o) s.proposals (run_of l p ∷ [])
unfolding perform
with_report-Leaves l env w p s r none = (refl, refl)
with_report-Leaves l env w p s r (some report) = (refl, refl)

-- A statement is sent once, whatever comes back, and no proposal changes.
pub perform-Leaves :
    (l : Limits) (env : Executing) (w : Wanted) (p : Proposal) (s : Store)
    → Leaves (perform l env w p s) s.proposals (run_of l p ∷ [])
unfolding perform
perform-Leaves l env w p s = ground arith

-- Either nothing is claimed and nothing sent, or the proposal is claimed from a store with the same
-- proposals, and its statement is sent or found stale.
pub data Effect (l : Limits) (env : Executing) (w : Wanted) (s : Store) (t : Step) : Type 0 where
  refuses : Leaves t s.proposals [] → Effect l env w s t
  claims :
      (s0 s' : Store) (p : Proposal)
      → s0.proposals ≡ s.proposals
      → claim_for_execution w.proposal_id w.user s0 ≡ done (s', p)
      → Leaves t s'.proposals (if is_stale p.data_as_of env.as_of then [] else run_of l p ∷ [])
      → Effect l env w s t

module _ (l : Limits) (env : Executing) (w : Wanted) (s : Store) where
  with_claim-Effect :
      (s0 : Store) (r : Outcome (Store × Proposal))
      → s0.proposals ≡ s.proposals
      → claim_for_execution w.proposal_id w.user s0 ≡ r
      → Effect l env w s (with_claim l env w s0 r)
  unfolding admit
  with_claim-Effect s0 (raised key_error) e h = refuses (e, refl)
  with_claim-Effect s0 (raised permission_error) e h = refuses (e, refl)
  with_claim-Effect s0 (raised value_error) e h = refuses (e, refl)
  with_claim-Effect s0 (raised integrity_error) e h = refuses (e, refl)
  with_claim-Effect s0 (raised zero_division) e h = refuses (e, refl)
  with_claim-Effect s0 (raised overflow_error) e h = refuses (e, refl)
  with_claim-Effect s0 (done (s', p)) e h =
      claims s0 s' p e h (elim (Bool-cases (is_stale p.data_as_of env.as_of)) [
        | inl old ↦ rw old (refl, refl)
        | inr current ↦ rw current (perform-Leaves l env w p s')
      ])

  admit-Effect : (s0 : Store) → s0.proposals ≡ s.proposals → Effect l env w s (admit l env w s0)
  unfolding admit
  admit-Effect s0 e = elim (Bool-cases (leb l.max_concurrent_total (running none 300 env.now s0))) [
    | inl full ↦ rw full (refuses (e, refl))
    | inr room ↦
        rw room
          (elim (Bool-cases
            (leb l.max_concurrent_per_user (running (some w.user) 300 env.now s0))) [
              | inl full ↦ rw full (refuses (e, refl))
              | inr free ↦
                  rw free
                    (with_claim-Effect s0 (claim_for_execution w.proposal_id w.user s0) e refl)
            ])
  ]

  with_token-Effect :
      (r : Outcome (RateState × Allowance)) → Effect l env w s (with_token l env w s (save s r))
  unfolding execute_query
  with_token-Effect (raised e) = refuses (refl, refl)
  with_token-Effect (done (st, allowed)) =
      admit-Effect (record s { rate_states = upsert rate_key st s.rate_states }) refl
  with_token-Effect (done (st, cap_reached n c)) = refuses (refl, refl)
  with_token-Effect (done (st, too_often n)) = refuses (refl, refl)

  -- A call of execute_query sends a statement only for a proposal that it has claimed, and it sends
  -- that proposal's statement, once, unless the replica has moved on.
  pub execute_query-Effect : Effect l env w s (execute_query l env w s)
  unfolding execute_query take_token
  execute_query-Effect =
      with_token-Effect (take_row l.rate env.now (state_of l.rate w.user env.now s))
