-- ===== src/Tools/Policy/Thresholds.antt =====
-- Exactly which proposals the policy lets run without an analyst.
use test_analyst_agent.Common.{
  ℕ, true, ◌≡◌, refl, ap, ◌∙◌, ◌↔◌, Option, none, some, List, [], ◌∷◌, length, arith, eq_iff, ◌==◌,
}
use test_analyst_agent.Common.Int.{ℤ, pos, leb_ℤ}
use test_analyst_agent.Store.Rows.{Store, auto}
use test_analyst_agent.Store.Settings.{setting}
use test_analyst_agent.Guards.Verdict.{Verdict, warnings}
use test_analyst_agent.Tools.Replies.{
  Limits, PolicyReason, switched_off, has_warnings, too_many_tables, no_estimate, too_many_rows,
  simple,
}
use test_analyst_agent.Tools.Policy.{policy, int_setting, with_thresholds, by_size, policy_status}

-- The conditions of an automatic run, with the thresholds that the settings give.
pub record RunsItself (l : Limits) (s : Store) (v : Verdict) (estimate : Option ℕ) : Type 0 where
  pub max_rows : ℤ
  pub max_tables : ℤ
  pub rows : ℕ
  pub switched_on : setting "auto_execute" "on" s ≡ "on"
  pub rows_setting : int_setting "auto_max_rows" l.auto_max_rows s ≡ some max_rows
  pub tables_setting : int_setting "auto_max_tables" l.auto_max_tables s ≡ some max_tables
  pub no_warnings : warnings v ≡ []
  pub few_tables : leb_ℤ (pos (length v.tables)) max_tables ≡ true
  pub estimated : estimate ≡ some rows
  pub few_rows : leb_ℤ (pos rows) max_rows ≡ true

length-zero {ℓ} : {A : Type ℓ} (xs : List A) → (length xs == 0) ≡ true → xs ≡ []
length-zero [] h = refl
length-zero (x ∷ xs) h = absurd (ground arith)

by_size-simple :
    (v : Verdict) (estimate : Option ℕ) (mr mt : ℤ)
    → by_size v estimate mr mt ≡ simple
    → (rows : ℕ) × (estimate ≡ some rows)
      × (leb_ℤ (pos rows) mr ≡ true)
      × (leb_ℤ (pos (length v.tables)) mt ≡ true)
      × ((length (warnings v) == 0) ≡ true)
by_size-simple v none mr mt h = absurd (ground arith)
by_size-simple v (some rows) mr mt h = (rows, refl, ground arith, ground arith, ground arith)

thresholds-simple :
    (v : Verdict) (estimate : Option ℕ) (a b : Option ℤ)
    → with_thresholds v estimate a b ≡ some simple
    → (mr : ℤ) × (mt : ℤ) × (a ≡ some mr) × (b ≡ some mt) × (by_size v estimate mr mt ≡ simple)
thresholds-simple v estimate (some mr) (some mt) h = (mr, mt, refl, refl, ground arith)
thresholds-simple v estimate (some mr) none h = absurd (ground arith)
thresholds-simple v estimate none b h = absurd (ground arith)

policy-thresholds :
    (l : Limits) (s : Store) (v : Verdict) (estimate : Option ℕ)
    → policy l s v estimate ≡ some simple
    → (setting "auto_execute" "on" s ≡ "on")
      × (with_thresholds v estimate
            (int_setting "auto_max_rows" l.auto_max_rows s)
            (int_setting "auto_max_tables" l.auto_max_tables s)
          ≡ some simple)
unfolding policy
policy-thresholds l s v estimate h = ground (arith, eq_iff (setting "auto_execute" "on" s) "on")

policy-RunsItself :
    (l : Limits) (s : Store) (v : Verdict) (estimate : Option ℕ)
    → policy l s v estimate ≡ some simple
    → RunsItself l s v estimate
policy-RunsItself l s v estimate h =
    let (on, t) = policy-thresholds l s v estimate h in
    let (mr, mt, a, b, size) = thresholds-simple v estimate _ _ t in
    let (rows, e, few, tables, clean) = by_size-simple v estimate mr mt size in
    record {
      max_rows = mr;
      max_tables = mt;
      rows = rows;
      switched_on = on;
      rows_setting = a;
      tables_setting = b;
      no_warnings = length-zero (warnings v) clean;
      few_tables = tables;
      estimated = e;
      few_rows = few;
    }

RunsItself-policy :
    (l : Limits) (s : Store) (v : Verdict) (estimate : Option ℕ)
    → RunsItself l s v estimate
    → policy l s v estimate ≡ some simple
RunsItself-policy l s v estimate r =
    unfold policy in
    ground (
      arith,
      eq_iff (setting "auto_execute" "on" s) "on",
      r.switched_on,
      r.rows_setting,
      r.tables_setting,
      r.no_warnings,
      r.few_tables,
      r.estimated,
      r.few_rows,
    )

auto-simple : (r : PolicyReason) → policy_status r ≡ auto → r ≡ simple
auto-simple simple h = refl
auto-simple switched_off h = absurd (ground arith)
auto-simple has_warnings h = absurd (ground arith)
auto-simple too_many_tables h = absurd (ground arith)
auto-simple no_estimate h = absurd (ground arith)
auto-simple too_many_rows h = absurd (ground arith)

-- The policy gives the status AUTO, whatever the reason that it names, exactly when the switch is on,
-- both thresholds are readable numbers, no check warned, the tables and the estimated rows are
-- within the thresholds, and there is an estimate.
pub policy-auto_iff :
    (l : Limits) (s : Store) (v : Verdict) (estimate : Option ℕ)
    → ((r : PolicyReason) × (policy l s v estimate ≡ some r) × (policy_status r ≡ auto))
      ↔ RunsItself l s v estimate
policy-auto_iff l s v estimate = (
  λ (r, e, h). policy-RunsItself l s v estimate (e ∙ ap (λ x. some x) (auto-simple r h)),
  λ own. (simple, RunsItself-policy l s v estimate own, refl),
)
