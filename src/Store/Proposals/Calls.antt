-- ===== src/Store/Proposals/Calls.antt =====
-- The methods of the store on the branch where they return.
use test_analyst_agent.Common.{
  ℕ, String, true, ◌≡◌, none, some, [], ◌∷◌, ◌++◌, eq_refl, find-replace, find-add, update,
}
use test_analyst_agent.Store.Rows.{
  Store, Proposal, ProposalStatus, executed, superseded, is_pending, can_run, done,
}
use test_analyst_agent.Store.Proposals.{
  proposal_key, get_proposal, decide, decided, amend, fresh_proposal, amend_note,
  claim_for_execution, replace,
}
use test_analyst_agent.Store.Proposals.Moves.{free-replace, at_own_key}

pub get-replace_self :
    (p q : Proposal) (s : Store)
    → get_proposal q.id s ≡ some p
    → get_proposal q.id (replace q s) ≡ some q
unfolding get_proposal
get-replace_self p q s h = rw (find-replace proposal_key q.id q s.proposals h, eq_refl q.id)

pub decide-returns :
    (id by note : String) (status : ProposalStatus) (now : ℕ) (p : Proposal) (s : Store)
    → get_proposal id s ≡ some p
    → is_pending p.status ≡ true
    → decide id status by note now s
      ≡ done (replace (decided status by note now p) s, decided status by note now p)
unfolding decide
decide-returns id by note status now p s h w = rw h (simp w)

pub claim-returns :
    (id : String) (p : Proposal) (s : Store)
    → get_proposal id s ≡ some p
    → can_run p.status ≡ true
    → claim_for_execution id p.user_id s
      ≡ done (replace (record p { status = executed }) s, record p { status = executed })
unfolding claim_for_execution
claim-returns id p s h w = rw h (simp (eq_refl, w))

-- The store after an edit that returns.
abbrev pub edited : String → String → String → String → ℕ → Proposal → Store → Store
edited new_id sql by note now p s =
    let s' = replace (decided superseded by (amend_note note) now p) s in
    record s' { proposals = s'.proposals ++ fresh_proposal new_id sql now p ∷ [] }

pub amend-returns :
    (id new_id sql by note : String) (now : ℕ) (p : Proposal) (s : Store)
    → get_proposal id s ≡ some p
    → is_pending p.status ≡ true
    → get_proposal new_id s ≡ none
    → amend id new_id sql by note now s
      ≡ done (
        edited new_id sql by note now p s,
        decided superseded by (amend_note note) now p,
        fresh_proposal new_id sql now p,
      )
unfolding amend get_proposal
amend-returns id new_id sql by note now p s h w free = rw (h, free) (simp w)

pub get-edited :
    (id new_id sql by note : String) (now : ℕ) (p : Proposal) (s : Store)
    → get_proposal id s ≡ some p
    → get_proposal new_id s ≡ none
    → get_proposal new_id (edited new_id sql by note now p s)
      ≡ some (fresh_proposal new_id sql now p)
unfolding get_proposal
get-edited id new_id sql by note now p s h free =
    let old = decided superseded by (amend_note note) now p in
    rw (
      find-add proposal_key new_id (fresh_proposal new_id sql now p)
          (update proposal_key p.id (λ _. old) s.proposals)
          (free-replace new_id p old s.proposals (at_own_key id p s.proposals h) free),
      eq_refl new_id,
    )
