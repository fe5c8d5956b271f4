-- ===== src/System/Vetted.antt =====
-- Without an analyst's edit every text that reaches the database is one that the guard rails passed.
pub mod Histories
pub mod Guarded
use test_analyst_agent.Common.{
  String, Bool, true, false, ◌≡◌, refl, sym, ap, ◌∙◌, ◌⊎◌, Option, none, some, arith, inl, inr,
}
use mathlib.Core.Path.{subst}
use test_analyst_agent.Store.Rows.{Store, Proposal, blocked}
use test_analyst_agent.Store.Proposals.{get_proposal}
use test_analyst_agent.Store.Proposals.Changes.{may_move}
use test_analyst_agent.Store.Proposals.Lives.{Life, stays, files, moves}
use test_analyst_agent.Guards.Verdict.{Verdict}
use test_analyst_agent.Tools.Propose.{Proposing, Asked}
use test_analyst_agent.Tools.Propose.Effects.{as_blocked, as_planned}
use test_analyst_agent.System.{
  Service, Call, proposes, executes, checks_sanity, describes, nominates, approves, rejects, amends,
  grants, sets_policy, step,
}
use test_analyst_agent.System.Life.{Checked, Files, Moves}
use test_analyst_agent.System.Life.Steps.{step-Lives}
use test_analyst_agent.System.Changes.{Moved, Moves-Moved}

abbrev pub is_no_edit : Call → Bool
is_no_edit (amends r id new_id sql by note now) = false
is_no_edit _ = true

module _ (v : Service) where
  -- What the guard rails print for some text that they pass.
  pub record Passed (sql : String) : Type 0 where
    pub text : String
    pub verdict : Verdict
    pub checked : v.guards text ≡ some verdict
    pub ok : verdict.ok ≡ true
    pub printed : sql ≡ verdict.sql

  abbrev pub Vetted : Option Proposal → Type 0
  Vetted none = Unit
  Vetted (some p) = (p.status ≡ blocked) ⊎ Passed p.sql

  abbrev pub AllVetted : Store → Type 0
  AllVetted s = (j : String) → Vetted (get_proposal j s)

  Checked-Vetted :
      (s : Store) (env : Proposing) (a : Asked) (o : Option Verdict) (q : Proposal)
      → v.guards a.sql ≡ o
      → Checked v.limits env a o s q
      → Vetted (some q)
  Checked-Vetted s env a none q g f = absurd f
  Checked-Vetted s env a (some w) q g (as_blocked bad e) = inl (rw e refl)
  Checked-Vetted s env a (some w) q g (as_planned plan reason good p r e) =
      inr (record { text = a.sql; verdict = w; checked = g; ok = good; printed = rw e refl })

  Files-Vetted :
      (s : Store) (c : Call) (q : Proposal) → is_no_edit c ≡ true → Files v s c q → Vetted (some q)
  Files-Vetted s (proposes env a) q n f = Checked-Vetted s env a (v.guards a.sql) q refl f
  Files-Vetted s (amends _ _ _ _ _ _ _) q n f = absurd (ground arith)
  Files-Vetted s (executes _ _) q n f = absurd f
  Files-Vetted s (checks_sanity _ _ _) q n f = absurd f
  Files-Vetted s (describes _ _ _ _) q n f = absurd f
  Files-Vetted s (nominates _ _ _ _ _ _) q n f = absurd f
  Files-Vetted s (approves _ _ _ _ _) q n f = absurd f
  Files-Vetted s (rejects _ _ _ _ _) q n f = absurd f
  Files-Vetted s (grants _ _ _ _ _) q n f = absurd f
  Files-Vetted s (sets_policy _ _ _ _ _ _) q n f = absurd f

  Moved-Vetted : (p q : Proposal) → Moved p q → Vetted (some p) → Vetted (some q)
  Moved-Vetted p q (m, (a, b, d, e)) (inl b') = absurd (ground arith)
  Moved-Vetted p q (m, (a, b, d, e)) (inr ok) = inr (record {
    text = ok.text;
    verdict = ok.verdict;
    checked = ok.checked;
    ok = ok.ok;
    printed = e ∙ ok.printed;
  })

  Life-Vetted :
      (s : Store) (c : Call) (j : String) (o o' : Option Proposal)
      → is_no_edit c ≡ true
      → Life (Files v s c) (Moves c j) o o'
      → Vetted o
      → Vetted o'
  Life-Vetted s c j o o' n (stays e) h = subst Vetted (sym e) h
  Life-Vetted s c j o o' n (files q e e' f) h = rw e' (Files-Vetted s c q n f)
  Life-Vetted s c j o o' n (moves p q e e' m) h =
      rw e' (Moved-Vetted p q (Moves-Moved c j p q m) (subst Vetted e h))

  pub step-Vetted :
      (c : Call) (s : Store) → is_no_edit c ≡ true → AllVetted s → AllVetted (step v c s).0
  step-Vetted c s n h j = Life-Vetted s c j _ _ n (step-Lives v c j s) (h j)
