-- ===== src/System/Life/Steps.antt =====
-- Each call of the two processes takes a proposal along its life.
use test_analyst_agent.Common.{
  ℕ, String, ◌≡◌, sym, ◌∙◌, refl, ap, Option, none, some, find, find-key, arith,
}
use mathlib.Core.Path.{subst}
use test_analyst_agent.Guards.Verdict.{Verdict}
use test_analyst_agent.Store.Rows.{Store, Proposal}
use test_analyst_agent.Store.Proposals.{proposal_key, get_proposal}
use test_analyst_agent.Store.Proposals.Moves.{at_own_key, claim-Claimed}
use test_analyst_agent.Store.Proposals.Lives.{same-Lives, add-Life, replace-Life}
use test_analyst_agent.Tools.Propose.{Proposing, Asked, propose_checked}
use test_analyst_agent.Tools.Propose.Effects.{Filing, nothing, one, propose_query-Filing}
use test_analyst_agent.Tools.Replies.{Limits, Step}
use test_analyst_agent.Tools.Execute.{Executing, Wanted}
use test_analyst_agent.Tools.Execute.Effects.{Effect, refuses, claims, execute_query-Effect}
use test_analyst_agent.Tools.Sanity.{sanity_check}
use test_analyst_agent.Panel.Changes.{grant-rows, set_policy-rows}
use test_analyst_agent.Tools.Describe.Journal.{describe_schema-rows}
use test_analyst_agent.Panel.Changes.{candidate-rows}
use test_analyst_agent.System.{
  Service, Call, proposes, executes, checks_sanity, describes, nominates, approves, rejects, amends,
  grants, sets_policy, step,
}
use test_analyst_agent.System.Life.{Checked, Files, Moves, LivesBy}
use test_analyst_agent.System.Life.Decisions.{approve-Lives, reject-Lives, amend-Lives}

sanity-rows :
    (l : Limits) (id user : String) (now : ℕ) (s : Store)
    → (sanity_check l id user now s).store.proposals ≡ s.proposals
unfolding sanity_check
sanity-rows l id user now s = ground arith

-- The rows of a store decide what becomes of a proposal.
rows-Lives :
    (v : Service) (c : Call) (j : String) (s s' : Store)
    → s'.proposals ≡ s.proposals
    → LivesBy v c j s s'
rows-Lives v c j s s' e = same-Lives (Files v s c) (Moves c j) j s s' e

Filing-Lives :
    (v : Service) (env : Proposing) (a : Asked) (w : Verdict) (j : String) (s s' : Store)
    → v.guards a.sql ≡ some w
    → Filing v.limits env a w s s'
    → LivesBy v (proposes env a) j s s'
unfolding get_proposal
Filing-Lives v env a w j s s' g (nothing e) = rows-Lives v (proposes env a) j s s' e
Filing-Lives v env a w j s s' g (one q free d e) = rw e (
    add-Life (Files v s (proposes env a)) (Moves (proposes env a) j) j q s.proposals free
      (subst (λ o. Checked v.limits env a o s q) (sym g) d))

propose-Lives :
    (v : Service) (env : Proposing) (a : Asked) (o : Option Verdict) (j : String) (s : Store)
    → v.guards a.sql ≡ o
    → LivesBy v (proposes env a) j s (propose_checked v.limits env a o s).store
unfolding propose_checked
propose-Lives v env a none j s g = rows-Lives v (proposes env a) j s s refl
propose-Lives v env a (some w) j s g =
    Filing-Lives v env a w j s _ g (propose_query-Filing v.limits env a w s)

Effect-Lives :
    (v : Service) (env : Executing) (w : Wanted) (j : String) (s : Store) (t : Step)
    → Effect v.limits env w s t
    → LivesBy v (executes env w) j s t.store
unfolding get_proposal
Effect-Lives v env w j s t (refuses (e, q)) = rows-Lives v (executes env w) j s t.store e
Effect-Lives v env w j s t (claims s0 s' p e h (k, q)) =
    let c = claim-Claimed w.proposal_id w.user s0 s' p h in
    let there : find proposal_key w.proposal_id s.proposals ≡ some c.old = rw (← e) c.found in
    let name : c.old.id ≡ w.proposal_id =
      find-key proposal_key w.proposal_id s.proposals c.old there in
    let id : p.id ≡ c.old.id = ap (λ (x : Proposal). x.id) c.taken in
    let at_id : find proposal_key p.id s.proposals ≡ some c.old =
      ap (λ k. find proposal_key k s.proposals) id
      ∙ at_own_key w.proposal_id c.old s.proposals there in
    rw (k, c.left, e)
      (replace-Life (Files v s (executes env w)) (Moves (executes env w) j) j c.old p s.proposals
        at_id
        (λ same. record {
          same = sym (id ∙ name) ∙ same;
          own = c.own;
          ready = c.ready;
          taken = c.taken;
        }))

-- Whatever is called, the proposal `j` is left as it is, or it is filed or moved by the rules of that
-- very call: propose_query files it blocked where the guard rails refuse its text, else with their
-- printed text and the status of the policy; the panel's approval, rejection and edit decide on it while
-- it is pending and an analyst is signed in, and an edit files its new text as pending; execute_query
-- takes it once it may run, for its owner only. Nothing else of it ever changes.
pub step-Lives : (v : Service) (c : Call) (j : String) (s : Store) → LivesBy v c j s (step v c s).0
unfolding step
step-Lives v (proposes env a) j s = propose-Lives v env a (v.guards a.sql) j s refl
step-Lives v (executes env w) j s =
    Effect-Lives v env w j s _ (execute_query-Effect v.limits env w s)
step-Lives v (checks_sanity id user now) j s =
    rows-Lives v (checks_sanity id user now) j s _ (sanity-rows v.limits id user now s)
step-Lives v (describes as_of table user now) j s =
    rows-Lives v (describes as_of table user now) j s _
      (describe_schema-rows v.model as_of table user now s)
step-Lives v (nominates r id by now day files) j s =
    rows-Lives v (nominates r id by now day files) j s _ (candidate-rows r id by now day s files)
step-Lives v (approves r id by note now) j s = approve-Lives v j r id by note now s
step-Lives v (rejects r id by note now) j s = reject-Lives v j r id by note now s
step-Lives v (amends r id new_id sql by note now) j s =
    amend-Lives v j r id new_id sql by note now s
step-Lives v (grants r user extra reason now) j s =
    rows-Lives v (grants r user extra reason now) j s _ (grant-rows r user extra reason now s)
step-Lives v (sets_policy r key value by reason now) j s =
    rows-Lives v (sets_policy r key value by reason now) j s _
      (set_policy-rows r key value by reason now s)
