-- ===== src/System/Life.antt =====
-- The life of a proposal with the call behind each of its steps: who files, decides and claims it.
pub mod Decisions
pub mod Steps
use test_analyst_agent.Common.{ℕ, String, true, ◌≡◌, Option, none, some}
use test_analyst_agent.Store.Rows.{
  Store, Proposal, is_pending, can_run, approved, rejected, superseded, executed, Outcome, done,
  raised,
}
use test_analyst_agent.Store.Proposals.{get_proposal, decided, amend_note, fresh_proposal}
use test_analyst_agent.Store.Proposals.Lives.{Lives}
use test_analyst_agent.Guards.Verdict.{Verdict}
use test_analyst_agent.Tools.Replies.{Limits}
use test_analyst_agent.Tools.Propose.{Proposing, Asked}
use test_analyst_agent.Tools.Propose.Effects.{Proposed}
use test_analyst_agent.Tools.Execute.{Wanted}
use test_analyst_agent.Panel.{Session, signed_in}
use test_analyst_agent.System.{
  Service, Call, proposes, executes, checks_sanity, describes, nominates, approves, rejects, amends,
  grants, sets_policy,
}

-- An edit files the new text of a pending proposal that there is.
pub record Edited (r : Session) (id new_id sql : String) (now : ℕ) (s : Store) (q : Proposal)
    : Type 0 where
  pub old : Proposal
  pub signed : signed_in r ≡ true
  pub found : get_proposal id s ≡ some old
  pub waits : is_pending old.status ≡ true
  pub fresh : q ≡ fresh_proposal new_id sql now old

-- An analyst who is signed in ends the wait of the proposal `j`, which has the name that the call gives.
pub record Decided (r : Session) (id j : String) (p q q' : Proposal) : Type 0 where
  pub signed : signed_in r ≡ true
  pub same : id ≡ j
  pub waits : is_pending p.status ≡ true
  pub decided : q ≡ q'

-- The owner of the proposal `j` claims it, once it may run.
pub record ClaimedBy (w : Wanted) (j : String) (p q : Proposal) : Type 0 where
  pub same : w.proposal_id ≡ j
  pub own : p.user_id ≡ w.user
  pub ready : can_run p.status ≡ true
  pub taken : q ≡ record p { status = executed }

-- What propose_query may file, with the end of the guard rails' check: nothing where it raises.
abbrev pub Checked : Limits → Proposing → Asked → Option Verdict → Store → Proposal → Type 0
Checked l env a none s q = ⊥
Checked l env a (some w) s q = Proposed l env a w s q

-- What a call may file in a store.
abbrev pub Files : Service → Store → Call → Proposal → Type 0
Files v s (proposes env a) q = Checked v.limits env a (v.guards a.sql) s q
Files v s (amends r id new_id sql by note now) q = Edited r id new_id sql now s q
Files v s _ q = ⊥

-- What a call may do to the proposal `j`.
abbrev pub Moves : Call → String → Proposal → Proposal → Type 0
Moves (approves r id by note now) j p q = Decided r id j p q (decided approved by note now p)
Moves (rejects r id by note now) j p q = Decided r id j p q (decided rejected by note now p)
Moves (amends r id new_id sql by note now) j p q =
    Decided r id j p q (decided superseded by (amend_note note) now p)
Moves (executes env w) j p q = ClaimedBy w j p q
Moves _ j p q = ⊥

-- The proposal `j` before and after, under the rules of one call.
abbrev pub LivesBy : Service → Call → String → Store → Store → Type 0
LivesBy v c j s s' = Lives (Files v s c) (Moves c j) j s s'
