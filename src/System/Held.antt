-- ===== src/System/Held.antt =====
-- A proposal that waits for an analyst does not run before an analyst has approved it.
use test_analyst_agent.Common.{
  String, Bool, true, false, not, ◌&&◌, ◌≡◌, refl, sym, ap, ◌∙◌, Option, none, some, List, [], ◌∷◌,
  all, str_eq, eq_iff, arith, inl, inr, Bool-cases,
}
use mathlib.Core.Path.{subst}
use test_analyst_agent.Store.Rows.{Store, Proposal, can_run}
use test_analyst_agent.Store.Proposals.{get_proposal}
use test_analyst_agent.Store.Proposals.Lives.{Life, stays, files, moves}
use test_analyst_agent.Tools.Replies.{Query}
use test_analyst_agent.Tools.Execute.{Executing, Wanted}
use test_analyst_agent.Panel.{signed_in}
use test_analyst_agent.System.{
  Service, Call, proposes, executes, checks_sanity, describes, nominates, approves, rejects, amends,
  grants, sets_policy, step, history,
}
use test_analyst_agent.System.Life.{Files, Moves}
use test_analyst_agent.System.Life.Steps.{step-Lives}
use test_analyst_agent.System.Approval.{Approved, execute_query-Approved}
use test_analyst_agent.System.Once.{runs_of, runs_of-append, proposes_no_run, sanity-queries}

-- Not the approval of `j` by an analyst who is signed in.
abbrev pub leaves_waiting : String → Call → Bool
leaves_waiting j (approves r id by note now) = not (signed_in r && str_eq id j)
leaves_waiting j _ = true

-- A proposal that there is and that must not run.
abbrev pub Held : Option Proposal → Type 0
Held none = ⊥
Held (some p) = can_run p.status ≡ false

Moves-Held :
    (c : Call) (j : String) (p q : Proposal)
    → leaves_waiting j c ≡ true
    → Moves c j p q
    → Held (some q)
Moves-Held (approves r id by note now) j p q l m =
    absurd (ground (arith, eq_iff id j, m.signed, m.same))
Moves-Held (rejects r id by note now) j p q l m = rw m.decided refl
Moves-Held (amends r id new_id sql by note now) j p q l m = rw m.decided refl
Moves-Held (executes env w) j p q l m = rw m.taken refl
Moves-Held (proposes _ _) j p q l m = absurd m
Moves-Held (checks_sanity _ _ _) j p q l m = absurd m
Moves-Held (describes _ _ _ _) j p q l m = absurd m
Moves-Held (nominates _ _ _ _ _ _) j p q l m = absurd m
Moves-Held (grants _ _ _ _ _) j p q l m = absurd m
Moves-Held (sets_policy _ _ _ _ _ _) j p q l m = absurd m

Life-Held :
    (v : Service) (s : Store) (c : Call) (j : String) (o o' : Option Proposal)
    → leaves_waiting j c ≡ true
    → Life (Files v s c) (Moves c j) o o'
    → Held o
    → Held o'
Life-Held v s c j o o' l (stays e) h = subst Held (sym e) h
Life-Held v s c j o o' l (files q e e' f) h = absurd (subst Held e h)
Life-Held v s c j o o' l (moves p q e e' m) h = rw e' (Moves-Held c j p q l m)

step-Held :
    (v : Service) (c : Call) (j : String) (s : Store)
    → leaves_waiting j c ≡ true
    → Held (get_proposal j s)
    → Held (get_proposal j (step v c s).0)
step-Held v c j s l h = Life-Held v s c j _ _ l (step-Lives v c j s) h

Approved-none :
    (v : Service) (env : Executing) (w : Wanted) (j : String) (s : Store) (qs : List Query)
    → Held (get_proposal j s)
    → Approved v.limits env w s qs
    → runs_of j qs ≡ 0
unfolding get_proposal
Approved-none v env w j s qs h a = rw a.statement (elim (Bool-cases (str_eq w.proposal_id j)) [
  | inr e ↦ rw e refl
  | inl e ↦
      let there : get_proposal j s ≡ some a.proposal =
        ap (λ k. get_proposal k s) (sym ((eq_iff w.proposal_id j).0 e)) ∙ a.found in
      absurd (ground (arith, subst Held there h, a.ready))
])

step-none :
    (v : Service) (c : Call) (j : String) (s : Store)
    → Held (get_proposal j s)
    → runs_of j (step v c s).1 ≡ 0
unfolding step
step-none v (proposes env a) j s h = proposes_no_run j v.limits env a (v.guards a.sql) s
step-none v (executes env w) j s h = elim (execute_query-Approved v.limits env w s) [
  | inl q ↦ rw q refl
  | inr a ↦ Approved-none v env w j s _ h a
]
step-none v (checks_sanity id user now) j s h = rw (sanity-queries v.limits id user now s) refl
step-none v (describes _ _ _ _) j s h = refl
step-none v (nominates _ _ _ _ _ _) j s h = refl
step-none v (approves _ _ _ _ _) j s h = refl
step-none v (rejects _ _ _ _ _) j s h = refl
step-none v (amends _ _ _ _ _ _ _) j s h = refl
step-none v (grants _ _ _ _ _) j s h = refl
step-none v (sets_policy _ _ _ _ _ _) j s h = refl

-- Over any history of calls of the tools and of the panel in which no analyst who is signed in
-- approves the proposal `j`: when it starts neither approved nor auto, it is never run, and it ends
-- neither approved nor auto.
pub history-Held :
    (v : Service) (cs : List Call) (j : String) (s : Store)
    → all (leaves_waiting j) cs ≡ true
    → Held (get_proposal j s)
    → (runs_of j (history v cs s).1 ≡ 0) × Held (get_proposal j (history v cs s).0)
unfolding history
history-Held v [] j s l h = (refl, h)
history-Held v (c ∷ cs) j s l h =
    let (rest, held) =
      history-Held v cs j (step v c s).0 (ground arith) (step-Held v c j s (ground arith) h) in
    (
      omega (
        arith,
        step-none v c j s h,
        rest,
        runs_of-append j (step v c s).1 (history v cs (step v c s).0).1,
      ),
      held,
    )
