-- ===== src/Store/Queries.antt =====
-- The methods of mcp_server/src/sap_agent_mcp/store.py that only read: pending, history, result_for,
-- journal, rate_states, settings. The order of the database is the record `OrderBy`.
pub mod Oldest
pub mod Newest
use test_analyst_agent.Common.{
  ℕ, String, Bool, true, not, ◌&&◌, Option, none, some, List, [], ◌∷◌, keep, take, put, str_eq,
  OrderBy, if◌then◌else◌,
}
use test_analyst_agent.Store.Rows.{
  Store, Proposal, Result, JournalEntry, Setting, RateState, is_pending,
}

abbrev pub created_at : Proposal → ℕ
created_at p = p.created_at

abbrev pub result_created_at : Result → ℕ
result_created_at r = r.created_at

-- `if text:` before a further condition
abbrev pub narrows : Option String → String → Bool
narrows none value = true
narrows (some text) value = if str_eq text "" then true else str_eq value text

abbrev pub written_for : Option String → Option String → Bool
written_for none value = true
written_for (some text) none = str_eq text ""
written_for (some text) (some value) = if str_eq text "" then true else str_eq value text

-- The first row, or none.
abbrev pub first {ℓ} : {A : Type ℓ} → List A → Option A
first [] = none
first (x ∷ xs) = some x

module _ (orders : (A : Type 0) → OrderBy A) where
  pub waiting : Store → List Proposal
  waiting s = keep (λ (p : Proposal). is_pending p.status) s.proposals

  unfoldable pub pending : ℕ → Store → List Proposal
  unfolding waiting
  pending limit s = take limit ((orders Proposal).asc created_at (waiting s))

  unfoldable pub history : ℕ → Option String → Store → List Proposal
  history limit user s = take limit (
      (orders Proposal).desc created_at
        (keep (λ (p : Proposal). narrows user p.user_id) s.proposals))

  abbrev pub results_of : String → Store → List Result
  results_of id s = keep (λ (r : Result). str_eq r.proposal_id id) s.results

  unfoldable pub result_for : String → Store → Option Result
  result_for id s = first (take 1 ((orders Result).desc result_created_at (results_of id s)))

  unfoldable pub journal : ℕ → Option String → Store → List JournalEntry
  journal limit id s = take limit (
      (orders JournalEntry).desc (λ (e : JournalEntry). e.at)
        (keep (λ (e : JournalEntry). written_for id e.proposal_id) s.journal))

  unfoldable pub rate_states : Store → List RateState
  rate_states s = (orders RateState).by_text (λ (st : RateState). st.user_id) s.rate_states

abbrev settings_over : List (String × String) → List Setting → List (String × String)
settings_over d [] = d
settings_over d (row ∷ rows) = settings_over (put row.key row.value d) rows

-- {row.key: row.value for row in rows}
unfoldable pub settings : Store → List (String × String)
unfolding put
settings s = settings_over [] s.settings
