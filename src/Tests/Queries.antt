-- ===== src/Tests/Queries.antt =====
-- The queries of the store at a concrete store.
use test_analyst_agent.Common.{◌≡◌, refl, String, false, some, [], ◌∷◌, ◌++◌, ℕ}
use test_analyst_agent.Store.Rows.{Store, Proposal, Result, pending}
use test_analyst_agent.Store.Queries.{waiting, result_for}
use test_analyst_agent.Store.Queries
use test_analyst_agent.Store.Queries.Oldest.{Oldest, pending-Oldest}
use test_analyst_agent.Store.Queries.Newest.{Newest, result_for-Newest}
use test_analyst_agent.Samples.{sample_store, sample_proposal}
use test_analyst_agent.Tests.Orders.{orders, sort, total_le}

abbrev filed : String → ℕ → Proposal
filed id moment = record (sample_proposal id pending) { created_at = moment }

abbrev answer_at : String → ℕ → Result
answer_at id moment = record {
  id = id;
  proposal_id = "prop_3";
  created_at = moment;
  row_count = 0;
  truncated = false;
  duration_ms = 1;
  columns = [];
  rows = [];
}

abbrev busy_store : Store
busy_store = record sample_store {
  proposals = filed "late" 30 ∷ sample_store.proposals ++ filed "early" 10 ∷ filed "next" 20 ∷ [];
  results = answer_at "res_1" 5 ∷ answer_at "res_2" 9 ∷ [];
}

shows_the_oldest : Queries.pending orders 2 busy_store ≡ filed "early" 10 ∷ filed "next" 20 ∷ []
unfolding Queries.pending sort total_le
shows_the_oldest = refl

pending-Oldest_example : Oldest 2 busy_store (Queries.pending orders 2 busy_store)
pending-Oldest_example = pending-Oldest orders 2 busy_store

shows_the_newest : result_for orders "prop_3" busy_store ≡ some (answer_at "res_2" 9)
unfolding result_for sort total_le
shows_the_newest = refl

result_for-Newest_example : Newest "prop_3" busy_store (result_for orders "prop_3" busy_store)
result_for-Newest_example = result_for-Newest orders "prop_3" busy_store
