-- ===== src/System/Changes.antt =====
-- What one call of the system can do to one proposal, whoever calls.
use test_analyst_agent.Common.{ℕ, String, true, ◌≡◌, refl, sym, Option, none, some, inr, arith}
use mathlib.Core.Path.{subst}
use test_analyst_agent.Store.Rows.{
  Store, Proposal, ProposalStatus, is_pending, pending, approved, rejected, superseded,
}
use test_analyst_agent.Store.Proposals.{get_proposal, decided, amend_note}
use test_analyst_agent.Store.Proposals.Changes.{Change, Change-refl, is_new, may_move, SameText}
use test_analyst_agent.Store.Proposals.Lives.{Life, stays, files, moves}
use test_analyst_agent.Store.Proposals.Moves.{is_pending-eq, can_run-moves}
use test_analyst_agent.Tools.Replies.{Limits, PolicyReason}
use test_analyst_agent.Guards.Verdict.{Verdict}
use test_analyst_agent.Tools.Propose.{Proposing, Asked}
use test_analyst_agent.Tools.Policy.{policy_status}
use test_analyst_agent.Tools.Propose.Effects.{as_blocked, as_planned}
use test_analyst_agent.System.{
  Service, Call, proposes, executes, checks_sanity, describes, nominates, approves, rejects, amends,
  grants, sets_policy, step,
}
use test_analyst_agent.System.Life.{Checked, Files, Moves}
use test_analyst_agent.System.Life.Steps.{step-Lives}

policy_status-new : (r : PolicyReason) → is_new (policy_status r) ≡ true
policy_status-new r = ground arith

Checked-new :
    (l : Limits) (env : Proposing) (a : Asked) (o : Option Verdict) (s : Store) (q : Proposal)
    → Checked l env a o s q
    → is_new q.status ≡ true
Checked-new l env a none s q f = absurd f
Checked-new l env a (some w) s q (as_blocked b e) = rw e refl
Checked-new l env a (some w) s q (as_planned plan reason ok p r e) = rw e (policy_status-new reason)

Files-new :
    (v : Service) (s : Store) (c : Call) (q : Proposal) → Files v s c q → is_new q.status ≡ true
Files-new v s (proposes env a) q f = Checked-new v.limits env a (v.guards a.sql) s q f
Files-new v s (amends r id new_id sql by note now) q f = rw f.fresh refl
Files-new v s (executes _ _) q f = absurd f
Files-new v s (checks_sanity _ _ _) q f = absurd f
Files-new v s (describes _ _ _ _) q f = absurd f
Files-new v s (nominates _ _ _ _ _ _) q f = absurd f
Files-new v s (approves _ _ _ _ _) q f = absurd f
Files-new v s (rejects _ _ _ _ _) q f = absurd f
Files-new v s (grants _ _ _ _ _) q f = absurd f
Files-new v s (sets_policy _ _ _ _ _ _) q f = absurd f

-- A step of a life, with what it leaves of the proposal.
abbrev pub Moved : Proposal → Proposal → Type 0
Moved p q = (may_move p.status q.status ≡ true) × SameText p q

-- The panel decides on what is pending.
decided-Moved :
    (status : ProposalStatus) (by note : String) (now : ℕ) (p q : Proposal)
    → is_pending p.status ≡ true
    → may_move pending status ≡ true
    → q ≡ decided status by note now p
    → Moved p q
decided-Moved status by note now p q w m e =
    rw e (rw (is_pending-eq p.status w) m, (refl, refl, refl, refl))

pub Moves-Moved : (c : Call) (j : String) (p q : Proposal) → Moves c j p q → Moved p q
Moves-Moved (approves r id by note now) j p q m =
    decided-Moved approved by note now p q m.waits refl m.decided
Moves-Moved (rejects r id by note now) j p q m =
    decided-Moved rejected by note now p q m.waits refl m.decided
Moves-Moved (amends r id new_id sql by note now) j p q m =
    decided-Moved superseded by (amend_note note) now p q m.waits refl m.decided
Moves-Moved (executes env w) j p q m =
    rw m.taken (can_run-moves p.status m.ready, (refl, refl, refl, refl))
Moves-Moved (proposes _ _) j p q m = absurd m
Moves-Moved (checks_sanity _ _ _) j p q m = absurd m
Moves-Moved (describes _ _ _ _) j p q m = absurd m
Moves-Moved (nominates _ _ _ _ _ _) j p q m = absurd m
Moves-Moved (grants _ _ _ _ _) j p q m = absurd m
Moves-Moved (sets_policy _ _ _ _ _ _) j p q m = absurd m

Life-Change :
    (v : Service) (s : Store) (c : Call) (j : String) (o o' : Option Proposal)
    → Life (Files v s c) (Moves c j) o o'
    → Change o o'
Life-Change v s c j o o' (stays e) = subst (Change o) (sym e) (Change-refl o)
Life-Change v s c j o o' (files q e e' f) = rw (e, e') (Files-new v s c q f)
Life-Change v s c j o o' (moves p q e e' m) = rw (e, e') (inr (Moves-Moved c j p q m))

-- Whatever is called, a proposal is left as it is, is filed as pending, auto or blocked where there
-- was none of its name, or takes one step of its life: pending to approved, rejected or superseded,
-- approved or auto to executed. Its text, question and owner never change, and it is never removed.
pub step-Change :
    (v : Service) (c : Call) (j : String) (s : Store)
    → Change (get_proposal j s) (get_proposal j (step v c s).0)
step-Change v c j s =
    Life-Change v s c j (get_proposal j s) (get_proposal j (step v c s).0) (step-Lives v c j s)
