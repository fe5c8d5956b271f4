-- ===== src/System/Once.antt =====
-- A proposal runs at most once, over whole histories of both processes.
use test_analyst_agent.Common.{
  ℕ, ◌+◌, ◌≤◌, String, Bool, true, false, ◌≡◌, refl, ap, ◌∙◌, ◌⊎◌, inl, inr, Option, none, some,
  List, [], ◌∷◌, ◌++◌, arith, if◌then◌else◌, Bool-cases, find, find-key, find-replace, str_eq,
  eq_iff,
}
use test_analyst_agent.Store.Rows.{
  Store, Proposal, ProposalStatus, pending, approved, auto, executed, done, can_run,
}
use test_analyst_agent.Store.Proposals.{get_proposal, proposal_key, claim_for_execution}
use test_analyst_agent.Store.Proposals.Changes.{Change, may_move}
use test_analyst_agent.Store.Proposals.Moves.{Claimed, claim-Claimed}
use test_analyst_agent.Tools.Replies.{Limits, Query, explain, run, Step}
use test_analyst_agent.Guards.Verdict.{Verdict}
use test_analyst_agent.Tools.Propose.{Proposing, Asked, propose_checked}
use test_analyst_agent.Tools.Propose.Effects.{propose-queries}
use test_analyst_agent.Tools.Execute.{Executing, Wanted, is_stale, run_of}
use test_analyst_agent.Tools.Execute.Effects.{Effect, refuses, claims, execute_query-Effect}
use test_analyst_agent.Tools.Sanity.{sanity_check}
use test_analyst_agent.System.Changes.{step-Change}
use test_analyst_agent.System.{
  Service, Call, proposes, executes, checks_sanity, describes, nominates, approves, rejects, amends,
  grants, sets_policy, step, history,
}

abbrev pub is_run_of : String → Query → ℕ
is_run_of j (explain sql) = 0
is_run_of j (run id sql rows seconds) = if str_eq id j then 1 else 0

-- How many statements were run for the proposal `j`.
abbrev pub runs_of : String → List Query → ℕ
runs_of j [] = 0
runs_of j (q ∷ qs) = is_run_of j q + runs_of j qs

pub runs_of-append :
    (j : String) (qs rs : List Query) → runs_of j (qs ++ rs) ≡ runs_of j qs + runs_of j rs
runs_of-append j [] rs = omega arith
runs_of-append j (q ∷ qs) rs = omega (arith, runs_of-append j qs rs)

-- A proposal that is decided against or used up has no run left.
abbrev pub is_open : ProposalStatus → Bool
is_open pending = true
is_open approved = true
is_open auto = true
is_open _ = false

-- The runs that a proposal may still have; a name that is not taken may become one.
abbrev pub runs_left : Option Proposal → ℕ
runs_left none = 1
runs_left (some p) = if is_open p.status then 1 else 0

runs_left-le : (o : Option Proposal) → runs_left o ≤ 1
runs_left-le none = omega arith
runs_left-le (some p) = ground arith

may_move-open : (a b : ProposalStatus) → may_move a b ≡ true → is_open a ≡ true
may_move-open a b h = ground arith

Change-left : (o o' : Option Proposal) → Change o o' → runs_left o' ≤ runs_left o
Change-left none none c = omega arith
Change-left none (some q) c = ground arith
Change-left (some p) none c = absurd c
Change-left (some p) (some q) (inl e) = rw e (omega arith)
Change-left (some p) (some q) (inr (m, t)) =
    rw (may_move-open p.status q.status m) (runs_left-le (some q))

can_run-open : (st : ProposalStatus) → can_run st ≡ true → is_open st ≡ true
can_run-open st h = ground arith

-- A claim uses up the run of its proposal.
claim-left :
    (j : String) (w : Wanted) (s0 s' : Store) (p : Proposal)
    → Claimed w.proposal_id w.user s0 s' p
    → (if str_eq p.id j then 1 else 0) + runs_left (get_proposal j s')
      ≤ runs_left (get_proposal j s0)
unfolding get_proposal
claim-left j w s0 s' p c =
    let own : p.id ≡ c.old.id = ap (λ (q : Proposal). q.id) c.taken in
    let name : c.old.id ≡ w.proposal_id =
      find-key proposal_key w.proposal_id s0.proposals c.old c.found in
    let there : find proposal_key p.id s0.proposals ≡ some c.old =
      ap (λ k. find proposal_key k s0.proposals) (own ∙ name) ∙ c.found in
    rw (c.left, find-replace proposal_key j p s0.proposals there)
      (elim (Bool-cases (str_eq p.id j)) [
        | inl e ↦
            rw (e, ← (eq_iff p.id j).0 e, there, can_run-open c.old.status c.ready)
              (spent p c.taken)
        | inr e ↦ rw e (omega arith)
      ])
  where
    spent : (q : Proposal) → q ≡ record c.old { status = executed } → 1 + runs_left (some q) ≤ 1
    spent q e = rw e (omega arith)

abbrev Bounded : String → Store → Store → List Query → Type 0
Bounded j s s' qs = runs_of j qs + runs_left (get_proposal j s') ≤ runs_left (get_proposal j s)

same_proposals :
    (j : String) (s s' : Store) → s'.proposals ≡ s.proposals → get_proposal j s' ≡ get_proposal j s
unfolding get_proposal
same_proposals j s s' e = rw e

claimed-Bounded :
    (j : String) (l : Limits) (env : Executing) (w : Wanted) (s0 s' : Store) (p : Proposal)
    → claim_for_execution w.proposal_id w.user s0 ≡ done (s', p)
    → Bounded j s0 s' (if is_stale p.data_as_of env.as_of then [] else run_of l p ∷ [])
claimed-Bounded j l env w s0 s' p h =
    let bound = claim-left j w s0 s' p (claim-Claimed w.proposal_id w.user s0 s' p h) in
    elim (Bool-cases (is_stale p.data_as_of env.as_of)) [
      | inl e ↦ rw e (omega (arith, bound))
      | inr e ↦ rw e (omega (arith, bound))
    ]

Effect-Bounded :
    (j : String) (l : Limits) (env : Executing) (w : Wanted) (s : Store) (t : Step)
    → Effect l env w s t
    → Bounded j s t.store t.queries
Effect-Bounded j l env w s t (refuses (e, q)) = rw (q, same_proposals j s t.store e) (omega arith)
Effect-Bounded j l env w s t (claims s0 s' p e h (k, q)) =
    rw (q, same_proposals j s' t.store k, ← same_proposals j s s0 e)
      (claimed-Bounded j l env w s0 s' p h)

quiet-Bounded :
    (j : String) (s s' : Store) (qs : List Query)
    → runs_of j qs ≡ 0
    → Change (get_proposal j s) (get_proposal j s')
    → Bounded j s s' qs
quiet-Bounded j s s' qs z c = omega (arith, z, Change-left (get_proposal j s) (get_proposal j s') c)

only_plans :
    (j sql : String) (qs : List Query) → (qs ≡ []) ⊎ (qs ≡ explain sql ∷ []) → runs_of j qs ≡ 0
only_plans j sql qs (inl e) = rw e
only_plans j sql qs (inr e) = rw e

-- A proposal by the agent runs nothing.
pub proposes_no_run :
    (j : String) (l : Limits) (env : Proposing) (a : Asked) (o : Option Verdict) (s : Store)
    → runs_of j (propose_checked l env a o s).queries ≡ 0
unfolding propose_checked
proposes_no_run j l env a none s = refl
proposes_no_run j l env a (some w) s = only_plans j _ _ (propose-queries l env a w s)

pub sanity-queries :
    (l : Limits) (id user : String) (now : ℕ) (s : Store)
    → (sanity_check l id user now s).queries ≡ []
unfolding sanity_check
sanity-queries l id user now s = ground arith

step-Bounded :
    (v : Service) (c : Call) (j : String) (s : Store) → Bounded j s (step v c s).0 (step v c s).1
unfolding step
step-Bounded v (proposes env a) j s =
    quiet-Bounded j s _ _ (proposes_no_run j v.limits env a (v.guards a.sql) s)
      (step-Change v (proposes env a) j s)
step-Bounded v (executes env w) j s =
    Effect-Bounded j v.limits env w s _ (execute_query-Effect v.limits env w s)
step-Bounded v (checks_sanity id user now) j s =
    quiet-Bounded j s _ _ (rw (sanity-queries v.limits id user now s))
      (step-Change v (checks_sanity id user now) j s)
step-Bounded v (describes as_of table user now) j s =
    quiet-Bounded j s _ [] refl (step-Change v (describes as_of table user now) j s)
step-Bounded v (nominates r id by now day files) j s =
    quiet-Bounded j s _ [] refl (step-Change v (nominates r id by now day files) j s)
step-Bounded v (approves r id by note now) j s =
    quiet-Bounded j s _ [] refl (step-Change v (approves r id by note now) j s)
step-Bounded v (rejects r id by note now) j s =
    quiet-Bounded j s _ [] refl (step-Change v (rejects r id by note now) j s)
step-Bounded v (amends r id new_id sql by note now) j s =
    quiet-Bounded j s _ [] refl (step-Change v (amends r id new_id sql by note now) j s)
step-Bounded v (grants r user extra reason now) j s =
    quiet-Bounded j s _ [] refl (step-Change v (grants r user extra reason now) j s)
step-Bounded v (sets_policy r key value by reason now) j s =
    quiet-Bounded j s _ [] refl (step-Change v (sets_policy r key value by reason now) j s)

-- From any store, over any history of calls of the tools and of the panel, by anyone and in any
-- order, the runs of a proposal are at most the one that its status leaves it: none for a proposal
-- that is executed, rejected, superseded or blocked, else one. What is left afterwards is counted in.
pub history-Bounded :
    (v : Service) (cs : List Call) (j : String) (s : Store)
    → runs_of j (history v cs s).1 + runs_left (get_proposal j (history v cs s).0)
      ≤ runs_left (get_proposal j s)
unfolding history
history-Bounded v [] j s = omega arith
history-Bounded v (c ∷ cs) j s =
    let (s', qs) = step v c s in
    omega (
      arith,
      step-Bounded v c j s,
      history-Bounded v cs j (step v c s).0,
      runs_of-append j (step v c s).1 (history v cs (step v c s).0).1,
    )
