-- ===== src/Store/Proposals/Lives.antt =====
-- How one proposal is filed or moved by a change of the rows, under the rules that a caller gives.
use test_analyst_agent.Common.{
  String, ◌≡◌, refl, sym, ◌∙◌, ap, inl, inr, Option, none, some, List, [], ◌∷◌, ◌++◌, str_eq,
  eq_iff, find, find-replace, find-add, update, Bool-cases,
}
use test_analyst_agent.Store.Rows.{Store, Proposal}
use test_analyst_agent.Store.Proposals.{proposal_key, get_proposal}
use test_analyst_agent.Store.Proposals.Moves.{free-replace}

-- A proposal before and after: as it was, new under the rule `F`, or moved under the rule `M`.
pub data Life (F : Proposal → Type 0) (M : Proposal → Proposal → Type 0) (o o' : Option Proposal)
    : Type 0 where
  stays : o' ≡ o → Life F M o o'
  files : (q : Proposal) → o ≡ none → o' ≡ some q → F q → Life F M o o'
  moves : (p q : Proposal) → o ≡ some p → o' ≡ some q → M p q → Life F M o o'

module _ (F : Proposal → Type 0) (M : Proposal → Proposal → Type 0) (j : String) where
  -- The same of the proposal `j` of two stores.
  abbrev pub Lives : Store → Store → Type 0
  Lives s s' = Life F M (get_proposal j s) (get_proposal j s')

  pub same-Lives : (s s' : Store) → s'.proposals ≡ s.proposals → Lives s s'
  unfolding get_proposal
  same-Lives s s' e = stays (ap (find proposal_key j) e)

  pub add-Life :
      (q : Proposal) (rows : List Proposal)
      → find proposal_key q.id rows ≡ none
      → F q
      → Life F M (find proposal_key j rows) (find proposal_key j (rows ++ q ∷ []))
  add-Life q rows free f =
      rw (find-add proposal_key j q rows free) (elim (Bool-cases (str_eq q.id j)) [
        | inl e ↦
            rw e (
              files q (ap (λ k. find proposal_key k rows) (sym ((eq_iff q.id j).0 e)) ∙ free) refl
                f)
        | inr e ↦ rw e (stays refl)
      ])

  pub replace-Life :
      (p q : Proposal) (rows : List Proposal)
      → find proposal_key q.id rows ≡ some p
      → (q.id ≡ j → M p q)
      → Life F M
          (find proposal_key j rows)
          (find proposal_key j (update proposal_key q.id (λ _. q) rows))
  replace-Life p q rows there m =
      rw (find-replace proposal_key j q rows there) (elim (Bool-cases (str_eq q.id j)) [
        | inl e ↦
            let same = (eq_iff q.id j).0 e in
            rw e (moves p q (ap (λ k. find proposal_key k rows) (sym same) ∙ there) refl (m same))
        | inr e ↦ rw e (stays refl)
      ])

  -- One row is replaced and another is filed under a free name.
  pub supersede-Life :
      (p q fresh : Proposal) (rows : List Proposal)
      → find proposal_key q.id rows ≡ some p
      → find proposal_key fresh.id rows ≡ none
      → (q.id ≡ j → M p q)
      → F fresh
      → Life F M
          (find proposal_key j rows)
          (find proposal_key j (update proposal_key q.id (λ _. q) rows ++ fresh ∷ []))
  supersede-Life p q fresh rows there free m f =
      let rows' = update proposal_key q.id (λ _. q) rows in
      let still_free = free-replace fresh.id p q rows there free in
      rw (find-add proposal_key j fresh rows' still_free) (elim (Bool-cases (str_eq fresh.id j)) [
        | inl e ↦ rw e (
            files fresh (ap (λ k. find proposal_key k rows) (sym ((eq_iff fresh.id j).0 e)) ∙ free)
              refl f)
        | inr e ↦ rw e (replace-Life p q rows there m)
      ])
