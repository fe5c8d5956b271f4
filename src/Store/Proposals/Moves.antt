-- ===== src/Store/Proposals/Moves.antt =====
-- What the methods of the store that write a proposal find, and what they leave.
use test_analyst_agent.Common.{
  String, true, ◌≡◌, refl, sym, ◌∙◌, ap, inl, inr, Option, none, some, List, arith, str_eq, eq_iff,
  find, find-key, find-replace, update, Bool-cases,
}
use test_analyst_agent.Store.Rows.{
  Store, Proposal, ProposalStatus, pending, executed, is_pending, can_run, done,
}
use test_analyst_agent.Store.Proposals.{
  proposal_key, get_proposal, claim_for_execution, claim_row, replace,
}
use test_analyst_agent.Store.Proposals.Changes.{may_move}

pub at_own_key :
    (id : String) (p : Proposal) (rows : List Proposal)
    → find proposal_key id rows ≡ some p
    → find proposal_key p.id rows ≡ some p
at_own_key id p rows e = ap (λ k. find proposal_key k rows) (find-key proposal_key id rows p e) ∙ e

pub is_pending-eq : (st : ProposalStatus) → is_pending st ≡ true → st ≡ pending
is_pending-eq st h = ground arith

pub can_run-moves : (st : ProposalStatus) → can_run st ≡ true → may_move st executed ≡ true
can_run-moves st h = ground arith

-- A name that is free stays free when another row is replaced.
pub free-replace :
    (k : String) (p q : Proposal) (rows : List Proposal)
    → find proposal_key q.id rows ≡ some p
    → find proposal_key k rows ≡ none
    → find proposal_key k (update proposal_key q.id (λ _. q) rows) ≡ none
free-replace k p q rows there free =
    rw (find-replace proposal_key k q rows there) (elim (Bool-cases (str_eq q.id k)) [
      | inl e ↦
          let at_k : find proposal_key k rows ≡ some p =
            ap (λ k. find proposal_key k rows) (sym ((eq_iff q.id k).0 e)) ∙ there in
          absurd (none≢some (sym free ∙ at_k))
      | inr e ↦ rw e free
    ])
  where
    none≢some : ◌≡◌ {A = Option Proposal} none (some p) → ⊥
    none≢some h = cc

-- What a claim that returns has found and done.
pub record Claimed (id user : String) (s s' : Store) (p : Proposal) : Type 0 where
  pub old : Proposal
  pub found : find proposal_key id s.proposals ≡ some old
  pub ready : can_run old.status ≡ true
  pub own : old.user_id ≡ user
  pub taken : p ≡ record old { status = executed }
  pub left : s' ≡ replace p s

claim_row-Claimed :
    (id user : String) (s s' : Store) (p : Proposal) (o : Option Proposal)
    → find proposal_key id s.proposals ≡ o
    → claim_row user s o ≡ done (s', p)
    → Claimed id user s s' p
claim_row-Claimed id user s s' p none e h = absurd (ground arith)
claim_row-Claimed id user s s' p (some old) e h = record {
  old = old;
  found = e;
  ready = ground (arith, eq_iff old.user_id user);
  own = ground (arith, eq_iff old.user_id user);
  taken = ground (arith, eq_iff old.user_id user);
  left = ground (arith, eq_iff old.user_id user);
}

pub claim-Claimed :
    (id user : String) (s s' : Store) (p : Proposal)
    → claim_for_execution id user s ≡ done (s', p)
    → Claimed id user s s' p
unfolding claim_for_execution get_proposal
claim-Claimed id user s s' p h =
    claim_row-Claimed id user s s' p (find proposal_key id s.proposals) refl h
