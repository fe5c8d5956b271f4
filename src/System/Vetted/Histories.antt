-- ===== src/System/Vetted/Histories.antt =====
-- Histories in which no analyst edits a text.
use test_analyst_agent.Common.{
  ℕ, String, true, false, ◌≡◌, refl, Option, none, some, List, [], ◌∷◌, ◌++◌, All, all, arith, inl,
  inr, Bool-cases,
}
use mathlib.Core.Path.{subst}
use test_analyst_agent.Store.Rows.{Store, Proposal, can_run, Outcome, done, raised}
use test_analyst_agent.Store.Proposals.{add_proposal}
use test_analyst_agent.Guards.Verdict.{Verdict}
use test_analyst_agent.Tools.Replies.{Limits, Query, explain, run}
use test_analyst_agent.Tools.Propose.{
  Proposing, Asked, propose_query, propose_checked, record_blocked, blocked_proposal,
}
use test_analyst_agent.Tools.Propose.Effects.{propose-queries}
use test_analyst_agent.Tools.Execute.{Executing, Wanted, execute_query}
use test_analyst_agent.Tools.Sanity.{sanity_check}
use test_analyst_agent.System.{
  Service, Call, proposes, executes, checks_sanity, describes, nominates, approves, rejects, amends,
  grants, sets_policy, step, history,
}
use test_analyst_agent.System.Approval.{Approved, execute_query-Approved}
use test_analyst_agent.System.Vetted.{is_no_edit, Passed, Vetted, AllVetted, step-Vetted}

abbrev pub text_of : Query → String
text_of (explain sql) = sql
text_of (run id sql n t) = sql

sanity-queries :
    (l : Limits) (id user : String) (now : ℕ) (s : Store)
    → (sanity_check l id user now s).queries ≡ []
unfolding sanity_check
sanity-queries l id user now s = ground arith

module _ (v : Service) where
  abbrev pub AllPassed : List Query → Type 0
  AllPassed qs = All (λ q. Passed v (text_of q)) qs

  record_blocked-queries :
      (env : Proposing) (a : Asked) (w : Verdict) (s : Store) (r : Outcome (Store × Proposal))
      → (record_blocked env a w s r).queries ≡ []
  record_blocked-queries env a w s (done (s', p)) = refl
  record_blocked-queries env a w s (raised e) = refl

  blocked-queries :
      (env : Proposing) (a : Asked) (w : Verdict) (s : Store)
      → w.ok ≡ false
      → (propose_query v.limits env a w s).queries ≡ []
  unfolding propose_query
  blocked-queries env a w s e =
      rw e (record_blocked-queries env a w s (add_proposal (blocked_proposal env a w) s))

  propose-Passed :
      (env : Proposing) (a : Asked) (o : Option Verdict) (s : Store)
      → v.guards a.sql ≡ o
      → AllPassed (propose_checked v.limits env a o s).queries
  unfolding propose_checked
  propose-Passed env a none s g = tt
  propose-Passed env a (some w) s g = elim (Bool-cases w.ok) [
    | inr e ↦ rw (blocked-queries env a w s e) tt
    | inl e ↦ elim (propose-queries v.limits env a w s) [
      | inl q ↦ rw q tt
      | inr q ↦ rw q (record { text = a.sql; verdict = w; checked = g; ok = e; printed = refl }, tt)
    ]
  ]

  ready-Passed : (p : Proposal) → can_run p.status ≡ true → Vetted v (some p) → Passed v p.sql
  ready-Passed p r (inl e) = absurd (ground arith)
  ready-Passed p r (inr ok) = ok

  Approved-Passed :
      (env : Executing) (w : Wanted) (s : Store) (qs : List Query)
      → AllVetted v s
      → Approved v.limits env w s qs
      → AllPassed qs
  Approved-Passed env w s qs h a =
      rw a.statement
        (ready-Passed a.proposal a.ready (subst (Vetted v) a.found (h w.proposal_id)), tt)

  execute-Passed :
      (env : Executing) (w : Wanted) (s : Store)
      → AllVetted v s
      → AllPassed (execute_query v.limits env w s).queries
  execute-Passed env w s h = elim (execute_query-Approved v.limits env w s) [
    | inl q ↦ rw q tt
    | inr a ↦ Approved-Passed env w s _ h a
  ]

  step-Passed : (c : Call) (s : Store) → AllVetted v s → AllPassed (step v c s).1
  unfolding step
  step-Passed (proposes env a) s h = propose-Passed env a (v.guards a.sql) s refl
  step-Passed (executes env w) s h = execute-Passed env w s h
  step-Passed (checks_sanity id user now) s h = rw (sanity-queries v.limits id user now s) tt
  step-Passed (describes as_of table user now) s h = tt
  step-Passed (nominates r id by now day files) s h = tt
  step-Passed (approves r id by note now) s h = tt
  step-Passed (rejects r id by note now) s h = tt
  step-Passed (amends r id new_id sql by note now) s h = tt
  step-Passed (grants r user extra reason now) s h = tt
  step-Passed (sets_policy r key value by reason now) s h = tt

  append-Passed : (a b : List Query) → AllPassed a → AllPassed b → AllPassed (a ++ b)
  append-Passed [] b p q = q
  append-Passed (x ∷ a) b (p, ps) q = (p, append-Passed a b ps q)

  -- In a history in which no analyst edits a text, from a store whose proposals are blocked or hold
  -- texts that the guard rails printed for a text that they passed: every statement that reaches the
  -- database, planned or run, is such a printed text.
  pub history-Passed :
      (cs : List Call) (s : Store)
      → all is_no_edit cs ≡ true
      → AllVetted v s
      → AllPassed (history v cs s).1
  unfolding history
  history-Passed [] s e h = tt
  history-Passed (c ∷ cs) s e h =
      append-Passed (step v c s).1 _ (step-Passed c s h)
        (history-Passed cs (step v c s).0 (ground arith) (step-Vetted v c s (ground arith) h))
