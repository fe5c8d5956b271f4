-- ===== src/Evals/Bridge/Approves.antt =====
-- The bridge's approval against the panel's.
use test_analyst_agent.Common.{
  ℕ, String, true, ◌≡◌, refl, ap, Option, none, some, find, find-key, Bool-cases, inl, inr,
}
use test_analyst_agent.Store.Rows.{
  Store, Proposal, Outcome, done, raised, approved, approved_by, is_pending,
}
use test_analyst_agent.Store.Journal.{write}
use test_analyst_agent.Store.Proposals.{decide, decide_row, proposal_key}
use test_analyst_agent.Panel.{Session, signed_in, approve, panel_entry, after_decision}
use test_analyst_agent.Evals.Bridge.{bridge_approve, after_approval, approval_note}

-- The store that an approval leaves.
abbrev pub store_after : Store → Outcome (Store × Proposal) → Store
store_after s (done (s', p)) = s'
store_after s (raised e) = s

-- What decide returns has the id that it is given.
abbrev OwnId : String → Outcome (Store × Proposal) → Type 0
OwnId id (done (s, p)) = p.id ≡ id
OwnId id (raised e) = Unit

decide_row-OwnId :
    (id by note : String) (now : ℕ) (s : Store) (o : Option Proposal)
    → find proposal_key id s.proposals ≡ o
    → OwnId id (decide_row approved by note now s o)
decide_row-OwnId id by note now s none h = tt
decide_row-OwnId id by note now s (some p) h = elim (Bool-cases (is_pending p.status)) [
  | inl w ↦ rw w (find-key proposal_key id s.proposals p h)
  | inr w ↦ rw w tt
]

decide-OwnId :
    (id by note : String) (now : ℕ) (s : Store) → OwnId id (decide id approved by note now s)
unfolding decide
decide-OwnId id by note now s =
    decide_row-OwnId id by note now s (find proposal_key id s.proposals) refl

same_store :
    (id by : String) (now : ℕ) (s : Store) (o : Outcome (Store × Proposal))
    → OwnId id o
    → store_after s (after_approval by now o) ≡ (after_decision approved_by by id now s o).0
same_store id by now s (done (s', p)) own =
    ap (λ i. write (panel_entry approved_by by i now) s') own
same_store id by now s (raised e) own = refl

-- The approval of the bridge leaves the very store that the panel's approval by the same analyst leaves, with
-- the bridge's note, where that analyst is signed in; the bridge itself asks for no session.
pub bridge_approve-panel :
    (r : Session) (id by : String) (now : ℕ) (s : Store)
    → signed_in r ≡ true
    → store_after s (bridge_approve id by now s) ≡ (approve r id by approval_note now s).0
unfolding bridge_approve approve
bridge_approve-panel r id by now s h = rw h (
    same_store id by now s (decide id approved by approval_note now s)
      (decide-OwnId id by approval_note now s))
