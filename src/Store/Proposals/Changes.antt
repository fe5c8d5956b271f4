-- ===== src/Store/Proposals/Changes.antt =====
-- What the store's methods can do to one proposal: its life from filing to its end.
use test_analyst_agent.Common.{Bool, true, false, ◌≡◌, refl, ◌⊎◌, inl, Option, none, some}
use test_analyst_agent.Store.Rows.{
  Proposal, ProposalStatus, pending, approved, auto, rejected, executed, superseded, blocked,
}

-- The statuses that a proposal is filed with.
abbrev pub is_new : ProposalStatus → Bool
is_new pending = true
is_new auto = true
is_new blocked = true
is_new _ = false

-- The steps of a life: a pending proposal is decided or replaced, one that may run is claimed.
abbrev pub may_move : ProposalStatus → ProposalStatus → Bool
may_move pending approved = true
may_move pending rejected = true
may_move pending superseded = true
may_move approved executed = true
may_move auto executed = true
may_move _ _ = false

-- The text, the owner and the name of a proposal, which no step changes.
abbrev pub SameText : Proposal → Proposal → Type 0
SameText p q = (q.id ≡ p.id) × (q.user_id ≡ p.user_id) × (q.question ≡ p.question) × (q.sql ≡ p.sql)

-- One proposal before and after.
abbrev pub Change : Option Proposal → Option Proposal → Type 0
Change none none = Unit
Change none (some q) = is_new q.status ≡ true
Change (some p) none = ⊥
Change (some p) (some q) = (q ≡ p) ⊎ ((may_move p.status q.status ≡ true) × SameText p q)

pub Change-refl : (o : Option Proposal) → Change o o
Change-refl none = tt
Change-refl (some p) = inl refl
