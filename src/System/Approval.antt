-- ===== src/System/Approval.antt =====
-- Nothing runs but what its owner asks for and an analyst or the policy has let through.
use test_analyst_agent.Common.{
  true, false, ◌≡◌, sym, ap, ◌∙◌, ◌⊎◌, inl, inr, some, List, [], ◌∷◌, if◌then◌else◌, Bool-cases,
  find, find-key,
}
use test_analyst_agent.Store.Rows.{Store, Proposal, can_run}
use test_analyst_agent.Store.Proposals.{get_proposal, proposal_key}
use test_analyst_agent.Store.Proposals.Moves.{Claimed, claim-Claimed}
use test_analyst_agent.Tools.Replies.{Limits, Query, run, Step}
use test_analyst_agent.Tools.Execute.{Executing, Wanted, is_stale, run_of, limit_or, execute_query}
use test_analyst_agent.Tools.Execute.Effects.{Effect, refuses, claims, execute_query-Effect}

-- What a statement of execute_query rests on.
pub record Approved (l : Limits) (env : Executing) (w : Wanted) (s : Store) (qs : List Query)
    : Type 0 where
  pub proposal : Proposal
  pub found : get_proposal w.proposal_id s ≡ some proposal
  pub ready : can_run proposal.status ≡ true
  pub own : proposal.user_id ≡ w.user
  pub current : is_stale proposal.data_as_of env.as_of ≡ false
  pub statement :
      qs
      ≡ run w.proposal_id proposal.sql
          (limit_or proposal.row_limit l.max_rows)
          l.query_timeout_seconds
        ∷ []

claims-Approved :
    (l : Limits) (env : Executing) (w : Wanted) (s s0 s' : Store) (p : Proposal) (qs : List Query)
    → s0.proposals ≡ s.proposals
    → Claimed w.proposal_id w.user s0 s' p
    → qs ≡ (if is_stale p.data_as_of env.as_of then [] else run_of l p ∷ [])
    → (qs ≡ []) ⊎ Approved l env w s qs
unfolding get_proposal
claims-Approved l env w s s0 s' p qs e c q = elim (Bool-cases (is_stale p.data_as_of env.as_of)) [
  | inl old ↦ inl (q ∙ ap (λ b. if b then [] else run_of l p ∷ []) old)
  | inr current ↦ inr (record {
    proposal = c.old;
    found = ap (λ rows. find proposal_key w.proposal_id rows) (sym e) ∙ c.found;
    ready = c.ready;
    own = c.own;
    current = ap (λ (x : Proposal). is_stale x.data_as_of env.as_of) (sym c.taken) ∙ current;
    statement =
        q
        ∙ ap (λ b. if b then [] else run_of l p ∷ []) current
        ∙ ap (λ (x : Proposal). run_of l x ∷ []) c.taken
        ∙ ap
            (λ k.
              run k c.old.sql (limit_or c.old.row_limit l.max_rows) l.query_timeout_seconds ∷ [])
            (find-key proposal_key w.proposal_id s0.proposals c.old c.found);
  })
]

-- A call of execute_query sends nothing to the database, or it sends the text of the named proposal,
-- once, with that proposal's row limit and the timeout: the proposal is then the caller's own, is
-- APPROVED or AUTO, and was not planned on another state of the replica.
pub execute_query-Approved :
    (l : Limits) (env : Executing) (w : Wanted) (s : Store)
    → ((execute_query l env w s).queries ≡ [])
      ⊎ Approved l env w s (execute_query l env w s).queries
execute_query-Approved l env w s =
    by_effect (execute_query l env w s) (execute_query-Effect l env w s)
  where
    by_effect : (t : Step) → Effect l env w s t → (t.queries ≡ []) ⊎ Approved l env w s t.queries
    by_effect t (refuses (e, q)) = inl q
    by_effect t (claims s0 s' p e h (k, q)) =
        claims-Approved l env w s s0 s' p t.queries e (claim-Claimed w.proposal_id w.user s0 s' p h)
          q
