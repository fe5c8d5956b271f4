-- ===== src/Store/Queries/Oldest.antt =====
-- What the analyst's queue shows of the pending proposals.
use test_analyst_agent.Common.{
  ℕ, ◌≤◌, true, ◌≡◌, ◌⊎◌, List, Memᴰ, length, keep-Mem, Mem-keep, OrderBy, Rising, LeftOut,
  Mem-take, length-take, take-Rising, take-LeftOut,
}
use test_analyst_agent.Store.Rows.{Store, Proposal, is_pending}
use test_analyst_agent.Store.Queries.{created_at, waiting, pending}

-- The oldest proposals that wait, at most `limit` of them.
pub record Oldest (limit : ℕ) (s : Store) (shown : List Proposal) : Type 0 where
  pub wait : (p : Proposal) → Memᴰ p shown → Memᴰ p s.proposals × (is_pending p.status ≡ true)
  pub at_most : length shown ≤ limit
  pub rises : Rising created_at shown
  pub others :
      (q : Proposal)
      → Memᴰ q s.proposals
      → is_pending q.status ≡ true
      → Memᴰ q shown ⊎ LeftOut created_at limit q shown

module _ (orders : (A : Type 0) → OrderBy A) where
  -- Store.pending shows proposals of the store that are pending, at most `limit`, the oldest first; a
  -- pending proposal is left out only where `limit` of them are shown and none of these is younger.
  pub pending-Oldest : (limit : ℕ) (s : Store) → Oldest limit s (pending orders limit s)
  unfolding pending waiting
  pending-Oldest limit s =
      let by = orders Proposal in
      let rows = waiting orders s in
      let waits = λ (p : Proposal). is_pending p.status in
      record {
        wait = λ p m.
            keep-Mem waits p s.proposals
              ((by.asc_mem created_at p rows).0 (Mem-take limit p (by.asc created_at rows) m));
        at_most = length-take limit (by.asc created_at rows);
        rises =
            take-Rising created_at limit (by.asc created_at rows) (by.asc_rises created_at rows);
        others = λ q m w.
            take-LeftOut created_at limit q (by.asc created_at rows) (by.asc_rises created_at rows)
              ((by.asc_mem created_at q rows).1 (Mem-keep waits q s.proposals m w));
      }
