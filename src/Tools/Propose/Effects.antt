-- ===== src/Tools/Propose/Effects.antt =====
-- What a call of propose_query can do to the proposals.
use test_analyst_agent.Common.{
  true, false, ◌≡◌, refl, ◌⊎◌, inl, inr, Option, none, some, [], ◌∷◌, ◌++◌, arith, Bool-cases,
  Option-cases, find,
}
use test_analyst_agent.Store.Rows.{Store, Proposal, Outcome, done, raised}
use test_analyst_agent.Store.Journal.{write}
use test_analyst_agent.Store.Proposals.{get_proposal, proposal_key, add_proposal}
use test_analyst_agent.Guards.Verdict.{Verdict}
use test_analyst_agent.Tools.Replies.{Limits, explain, PolicyReason}
use test_analyst_agent.Tools.Policy.{policy, policy_status}
use test_analyst_agent.Tools.Propose.{
  PlanOutcome, planned, refused, crashed, Proposing, Asked, propose_query, record_blocked,
  record_planned, with_plan, with_policy, blocked_proposal, planned_proposal,
}
use test_analyst_agent.Database.{Plan}

module _ (l : Limits) (env : Proposing) (a : Asked) (w : Verdict) (s : Store) where
  -- The proposal that a call may file: blocked by the guard rails, or with the status of the policy.
  pub data Proposed (q : Proposal) : Type 0 where
    as_blocked : w.ok ≡ false → q ≡ blocked_proposal env a w → Proposed q
    as_planned :
        (plan : Plan) (reason : PolicyReason)
        → w.ok ≡ true
        → env.plan w.sql ≡ planned plan
        → policy l s w plan.estimated_rows ≡ some reason
        → q ≡ planned_proposal env a w plan (policy_status reason)
        → Proposed q

  -- The rows that a call leaves.
  pub data Filing (s' : Store) : Type 0 where
    nothing : s'.proposals ≡ s.proposals → Filing s'
    one :
        (q : Proposal)
        → get_proposal q.id s ≡ none
        → Proposed q
        → s'.proposals ≡ s.proposals ++ q ∷ []
        → Filing s'

  -- What add_proposal has done, where it returns.
  abbrev Added : Proposal → Outcome (Store × Proposal) → Type 0
  Added q (done (s', p)) = (get_proposal q.id s ≡ none) × (s'.proposals ≡ s.proposals ++ q ∷ [])
  Added q (raised e) = Unit

  add_proposal-Added : (q : Proposal) → Added q (add_proposal q s)
  unfolding add_proposal get_proposal
  add_proposal-Added q = elim (Option-cases (find proposal_key q.id s.proposals)) [
    | inl e ↦ rw e (e, refl)
    | inr (p, e) ↦ rw e tt
  ]

  record_blocked-Filing :
      (q : Proposal) (r : Outcome (Store × Proposal))
      → Proposed q
      → Added q r
      → Filing (record_blocked env a w s r).store
  unfolding write
  record_blocked-Filing q (done (s', p)) d (free, e) = one q free d e
  record_blocked-Filing q (raised e) d c = nothing refl

  record_planned-Filing :
      (q : Proposal) (reason : PolicyReason) (r : Outcome (Store × Proposal))
      → Proposed q
      → Added q r
      → Filing (record_planned env a w reason s r).store
  unfolding write
  record_planned-Filing q reason (done (s', p)) d (free, e) = one q free d e
  record_planned-Filing q reason (raised e) d c = nothing refl

  with_policy-Filing :
      (plan : Plan) (o : Option PolicyReason)
      → w.ok ≡ true
      → env.plan w.sql ≡ planned plan
      → policy l s w plan.estimated_rows ≡ o
      → Filing (with_policy env a w s plan o).store
  with_policy-Filing plan none ok e h = nothing refl
  with_policy-Filing plan (some reason) ok e h =
      let q = planned_proposal env a w plan (policy_status reason) in
      record_planned-Filing q reason (add_proposal q s) (as_planned plan reason ok e h refl)
        (add_proposal-Added q)

  with_plan-Filing :
      (o : PlanOutcome) → w.ok ≡ true → env.plan w.sql ≡ o → Filing (with_plan l env a w s o).store
  unfolding write
  with_plan-Filing (planned plan) ok e =
      with_policy-Filing plan (policy l s w plan.estimated_rows) ok e refl
  with_plan-Filing refused ok e = nothing refl
  with_plan-Filing crashed ok e = nothing refl

  -- propose_query files at most one new proposal and changes no other.
  pub propose_query-Filing : Filing (propose_query l env a w s).store
  unfolding propose_query
  propose_query-Filing = elim (Bool-cases w.ok) [
    | inl ok ↦ simp ok (with_plan-Filing (env.plan w.sql) ok refl)
    | inr bad ↦ simp bad (
        record_blocked-Filing (blocked_proposal env a w) (add_proposal (blocked_proposal env a w) s)
          (as_blocked bad refl) (add_proposal-Added (blocked_proposal env a w)))
  ]

  -- The statements of a call are at most the plan of the text that the guard rails passed.
  pub propose-queries :
      ((propose_query l env a w s).queries ≡ [])
      ⊎ ((propose_query l env a w s).queries ≡ explain w.sql ∷ [])
  unfolding propose_query add_proposal policy
  propose-queries = ground arith
