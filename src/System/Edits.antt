-- ===== src/System/Edits.antt =====
-- An analyst's edit: the new text goes to approval with no verdict of its own.
use test_analyst_agent.Common.{ℕ, String, true, ◌≡◌, refl, ap, ◌∙◌, none, some, []}
use test_analyst_agent.Store.Rows.{
  Store, Proposal, approved, is_pending, executed, done, JournalEntry, amended, approved_by,
}
use test_analyst_agent.Store.Journal.{write}
use test_analyst_agent.Store.Proposals.{
  get_proposal, decided, fresh_proposal, claim_for_execution, replace,
}
use test_analyst_agent.Store.Proposals.Calls.{
  decide-returns, claim-returns, amend-returns, get-edited, get-replace_self, edited,
}
use test_analyst_agent.Panel.{Session, signed_in, approve, amend_proposal, panel_entry}
use test_analyst_agent.System.{Service, approves, amends, step}

pub get-write :
    (j : String) (e : JournalEntry) (s : Store) → get_proposal j (write e s) ≡ get_proposal j s
unfolding get_proposal write
get-write j e s = refl

abbrev after_edit : String → String → String → String → ℕ → Proposal → Store → Store
after_edit new_id sql by note now p s =
    write (panel_entry amended by p.id now) (edited new_id sql by note now p s)

amend-after_edit :
    (r : Session) (id new_id sql by note : String) (now : ℕ) (p : Proposal) (s : Store)
    → signed_in r ≡ true
    → get_proposal id s ≡ some p
    → is_pending p.status ≡ true
    → get_proposal new_id s ≡ none
    → (amend_proposal r id new_id sql by note now s).0 ≡ after_edit new_id sql by note now p s
amend-after_edit r id new_id sql by note now p s signed h w free =
    unfold amend_proposal in simp (signed, amend-returns id new_id sql by note now p s h w free)

pub approve-returns :
    (r : Session) (id by note : String) (now : ℕ) (p : Proposal) (s : Store)
    → signed_in r ≡ true
    → get_proposal id s ≡ some p
    → is_pending p.status ≡ true
    → (approve r id by note now s).0
      ≡ write (panel_entry approved_by by id now) (replace (decided approved by note now p) s)
approve-returns r id by note now p s signed h w =
    unfold approve in simp (signed, decide-returns id by note approved now p s h w)

-- What the edit files, once it is approved.
abbrev pub approved_edit : String → String → String → String → ℕ → ℕ → Proposal → Proposal
approved_edit new_id sql by note t1 t2 p =
    decided approved by note t2 (fresh_proposal new_id sql t1 p)

-- The store after the edit and the approval of what it filed.
abbrev pub both_calls :
    Service → Session → String → String → String → String → String → ℕ → ℕ → Store → Store
both_calls v r id new_id sql by note t1 t2 s =
    (step v (approves r new_id by note t2) (step v (amends r id new_id sql by note t1) s).0).0

module _ (v : Service) (r : Session) (id new_id sql by note : String) (t1 t2 : ℕ) (p : Proposal)
    (s : Store) (signed : signed_in r ≡ true) (there : get_proposal id s ≡ some p)
    (waits : is_pending p.status ≡ true) (free : get_proposal new_id s ≡ none) where
  abbrev first_call : Store
  first_call = after_edit new_id sql by note t1 p s

  filed : get_proposal new_id first_call ≡ some (fresh_proposal new_id sql t1 p)
  filed =
      get-write new_id (panel_entry amended by p.id t1) (edited new_id sql by note t1 p s)
      ∙ get-edited id new_id sql by note t1 p s there free

  both_calls-eq :
      (both_calls v r id new_id sql by note t1 t2 s)
      ≡ write
          (panel_entry approved_by by new_id t2)
          (replace (approved_edit new_id sql by note t1 t2 p) first_call)
  unfolding step
  both_calls-eq =
      ap (λ x. (approve r new_id by note t2 x).0)
        (amend-after_edit r id new_id sql by note t1 p s signed there waits free)
      ∙ approve-returns r new_id by note t2 (fresh_proposal new_id sql t1 p) first_call signed filed
          refl

  edit_is_approved :
      get_proposal new_id (both_calls v r id new_id sql by note t1 t2 s)
      ≡ some (approved_edit new_id sql by note t1 t2 p)
  edit_is_approved =
      ap (get_proposal new_id) both_calls-eq
      ∙ get-write new_id (panel_entry approved_by by new_id t2)
          (replace (approved_edit new_id sql by note t1 t2 p) first_call)
      ∙ get-replace_self (fresh_proposal new_id sql t1 p) (approved_edit new_id sql by note t1 t2 p)
          first_call filed

  -- Whatever text the analyst puts into a pending proposal, and whatever the guard rails `v.guards`
  -- would say of it: after the edit and one approval the store holds the new proposal with exactly
  -- that text, with no check and no table on record, and its owner's claim for execution returns it.
  pub edited_text_runs :
      (get_proposal new_id (both_calls v r id new_id sql by note t1 t2 s)
        ≡ some (approved_edit new_id sql by note t1 t2 p))
      × ((approved_edit new_id sql by note t1 t2 p).sql ≡ sql)
      × ((approved_edit new_id sql by note t1 t2 p).checks ≡ [])
      × (claim_for_execution new_id p.user_id (both_calls v r id new_id sql by note t1 t2 s)
          ≡ done (
            replace
                (record (approved_edit new_id sql by note t1 t2 p) { status = executed })
                (both_calls v r id new_id sql by note t1 t2 s),
            record (approved_edit new_id sql by note t1 t2 p) { status = executed },
          ))
  edited_text_runs = (
    edit_is_approved,
    refl,
    refl,
    claim-returns new_id (approved_edit new_id sql by note t1 t2 p)
        (both_calls v r id new_id sql by note t1 t2 s) edit_is_approved refl,
  )
