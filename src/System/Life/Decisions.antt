-- ===== src/System/Life/Decisions.antt =====
-- The panel's decisions on a proposal, each with its call.
use test_analyst_agent.Common.{
  ℕ, String, true, ◌≡◌, refl, sym, ◌∙◌, inl, inr, Option, none, some, find, find-key, Bool-cases,
  Option-cases,
}
use test_analyst_agent.Store.Rows.{
  Store, Proposal, ProposalStatus, is_pending, approved, rejected, superseded, Outcome, done,
  raised, Event, approved_by, rejected_by,
}
use test_analyst_agent.Store.Journal.{write}
use test_analyst_agent.Store.Proposals.{
  proposal_key, get_proposal, decide, decide_row, decided, amend, amend_row, amend_note,
  fresh_proposal,
}
use test_analyst_agent.Store.Proposals.Moves.{at_own_key}
use test_analyst_agent.Store.Proposals.Lives.{stays, replace-Life, supersede-Life}
use test_analyst_agent.Panel.{
  Session, signed_in, approve, reject, amend_proposal, after_decision, after_amend,
}
use test_analyst_agent.System.{Service, Call, approves, rejects, amends}
use test_analyst_agent.System.Life.{Files, Moves, LivesBy}

module _ (v : Service) (c : Call) (j id by note : String) (status : ProposalStatus) (now : ℕ) where
  abbrev Decides : Type 0
  Decides =
      (p : Proposal)
      → is_pending p.status ≡ true
      → id ≡ j
      → Moves c j p (decided status by note now p)

  abbrev LivesIf : Store → Outcome (Store × Proposal) → Type 0
  LivesIf s (done (s', p)) = LivesBy v c j s s'
  LivesIf s (raised e) = Unit

  decide_row-Lives :
      (s : Store) (o : Option Proposal)
      → find proposal_key id s.proposals ≡ o
      → Decides
      → LivesIf s (decide_row status by note now s o)
  unfolding get_proposal
  decide_row-Lives s none e m = tt
  decide_row-Lives s (some p) e m = elim (Bool-cases (is_pending p.status)) [
    | inl w ↦ rw w (
        replace-Life (Files v s c) (Moves c j) j p (decided status by note now p) s.proposals
          (at_own_key id p s.proposals e)
          (λ same. m p w (sym (find-key proposal_key id s.proposals p e) ∙ same)))
    | inr w ↦ rw w tt
  ]

  after_decision-Lives :
      (outcome : Event) (s : Store) (r : Outcome (Store × Proposal))
      → LivesIf s r
      → LivesBy v c j s (after_decision outcome by id now s r).0
  unfolding get_proposal write
  after_decision-Lives outcome s (done (s', p)) l = l
  after_decision-Lives outcome s (raised e) l = stays refl

  decision-Lives :
      (outcome : Event) (s : Store)
      → Decides
      → LivesBy v c j s (after_decision outcome by id now s (decide id status by note now s)).0
  unfolding decide get_proposal
  decision-Lives outcome s m =
      after_decision-Lives outcome s
        (decide_row status by note now s (find proposal_key id s.proposals))
        (decide_row-Lives s (find proposal_key id s.proposals) refl m)

pub approve-Lives :
    (v : Service) (j : String) (r : Session) (id by note : String) (now : ℕ) (s : Store)
    → LivesBy v (approves r id by note now) j s (approve r id by note now s).0
unfolding approve get_proposal
approve-Lives v j r id by note now s = elim (Bool-cases (signed_in r)) [
  | inl e ↦ rw e (
      decision-Lives v (approves r id by note now) j id by note approved now approved_by s
        (λ p w same. record { signed = e; same = same; waits = w; decided = refl }))
  | inr e ↦ rw e (stays refl)
]

pub reject-Lives :
    (v : Service) (j : String) (r : Session) (id by note : String) (now : ℕ) (s : Store)
    → LivesBy v (rejects r id by note now) j s (reject r id by note now s).0
unfolding reject get_proposal
reject-Lives v j r id by note now s = elim (Bool-cases (signed_in r)) [
  | inl e ↦ rw e (
      decision-Lives v (rejects r id by note now) j id by note rejected now rejected_by s
        (λ p w same. record { signed = e; same = same; waits = w; decided = refl }))
  | inr e ↦ rw e (stays refl)
]

module _ (v : Service) (r : Session) (j id new_id sql by note : String) (now : ℕ)
    (signed : signed_in r ≡ true) where
  abbrev this : Call
  this = amends r id new_id sql by note now

  abbrev AmendsIf : Store → Outcome (Store × Proposal × Proposal) → Type 0
  AmendsIf s (done (s', p, q)) = LivesBy v this j s s'
  AmendsIf s (raised e) = Unit

  amend_row-Lives :
      (s : Store) (o : Option Proposal)
      → find proposal_key id s.proposals ≡ o
      → AmendsIf s (amend_row new_id sql by note now s o)
  unfolding get_proposal
  amend_row-Lives s none e = tt
  amend_row-Lives s (some p) e = elim (Bool-cases (is_pending p.status)) [
    | inr w ↦ rw w tt
    | inl w ↦ rw w (elim (Option-cases (find proposal_key new_id s.proposals)) [
      | inr (q, taken) ↦ rw taken tt
      | inl free ↦ rw free (
          supersede-Life (Files v s this) (Moves this j) j p
            (decided superseded by (amend_note note) now p) (fresh_proposal new_id sql now p)
            s.proposals (at_own_key id p s.proposals e) free
            (λ same. record {
              signed = signed;
              same = sym (find-key proposal_key id s.proposals p e) ∙ same;
              waits = w;
              decided = refl;
            })
            (record { old = p; signed = signed; found = e; waits = w; fresh = refl }))
    ])
  ]

  after_amend-Lives :
      (s : Store) (o : Outcome (Store × Proposal × Proposal))
      → AmendsIf s o
      → LivesBy v this j s (after_amend by now s o).0
  unfolding get_proposal write
  after_amend-Lives s (done (s', p, q)) l = l
  after_amend-Lives s (raised e) l = stays refl

pub amend-Lives :
    (v : Service) (j : String) (r : Session) (id new_id sql by note : String) (now : ℕ) (s : Store)
    → LivesBy v
        (amends r id new_id sql by note now)
        j
        s
        (amend_proposal r id new_id sql by note now s).0
unfolding amend_proposal get_proposal amend
amend-Lives v j r id new_id sql by note now s = elim (Bool-cases (signed_in r)) [
  | inl e ↦ rw e (
      after_amend-Lives v r j id new_id sql by note now e s
        (amend_row new_id sql by note now s (find proposal_key id s.proposals))
        (amend_row-Lives v r j id new_id sql by note now e s (find proposal_key id s.proposals)
          refl))
  | inr e ↦ rw e (stays refl)
]
