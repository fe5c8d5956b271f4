-- ===== src/Store/Queries/Newest.antt =====
-- The result that the history shows with a proposal.
use test_analyst_agent.Common.{
  ◌≤◌, String, ◌≡◌, ◌≢◌, Option, none, some, List, [], ◌∷◌, Memᴰ, take, keep-Mem, Mem-keep, All-Mem,
  OrderBy, Falling, str_eq, eq_iff, refl, arith, inl, inr,
}
use mathlib.Core.List.Memᴰ
use test_analyst_agent.Store.Rows.{Store, Result}
use test_analyst_agent.Store.Queries.{result_created_at, results_of, result_for, first}

-- The newest result of a proposal, or that there is none.
pub data Newest (id : String) (s : Store) : Option Result → Type 0 where
  none_there : ((r : Result) → Memᴰ r s.results → r.proposal_id ≢ id) → Newest id s none
  newest :
      (r : Result)
      → Memᴰ r s.results
      → r.proposal_id ≡ id
      → ((r' : Result) → Memᴰ r' s.results → r'.proposal_id ≡ id → r'.created_at ≤ r.created_at)
      → Newest id s (some r)

first-Newest :
    (id : String) (s : Store) (rows : List Result)
    → ((r : Result) → Memᴰ r rows → Memᴰ r s.results × (r.proposal_id ≡ id))
    → ((r : Result) → Memᴰ r s.results → r.proposal_id ≡ id → Memᴰ r rows)
    → Falling result_created_at rows
    → Newest id s (first (take 1 rows))
first-Newest id s [] sound complete f = none_there (λ r m e. Memᴰ.not-nil (complete r m e))
first-Newest id s (r ∷ rows) sound complete (after, f) =
    let (there, own) = sound r (Memᴰ.head refl) in
    newest r there own (λ r' m e. elim (Memᴰ.cases_cons (complete r' m e)) [
      | inl same ↦ rw same (omega arith)
      | inr later ↦ All-Mem (λ (x : Result). x.created_at ≤ r.created_at) r' rows after later
    ])

module _ (orders : (A : Type 0) → OrderBy A) where
  -- Store.result_for gives the newest result of the proposal, and none only where there is none.
  pub result_for-Newest : (id : String) (s : Store) → Newest id s (result_for orders id s)
  unfolding result_for
  result_for-Newest id s =
      let by = orders Result in
      let rows = results_of orders id s in
      let own = λ (r : Result). str_eq r.proposal_id id in
      first-Newest id s (by.desc result_created_at rows)
        (λ r m.
          let (there, e) = keep-Mem own r s.results ((by.desc_mem result_created_at r rows).0 m) in
          (there, (eq_iff r.proposal_id id).0 e))
        (λ r m e.
          (by.desc_mem result_created_at r rows).1
            (Mem-keep own r s.results m ((eq_iff r.proposal_id id).1 e)))
        (by.desc_falls result_created_at rows)
