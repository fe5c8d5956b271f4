-- ===== src/System/Thresholds.antt =====
-- A threshold of the policy that is no number: tools.py, Tools._policy, after app.py, set_policy.
use test_analyst_agent.Common.{
  ℕ, String, true, false, ◌≡◌, refl, ◌∙◌, Option, none, some, [], ◌∷◌, find, is_blank,
}
use test_analyst_agent.Common.Decimal.{python_int}
use test_analyst_agent.Database.{Plan}
use test_analyst_agent.Guards.Verdict.{Verdict}
use test_analyst_agent.Panel.{Session, signed_in, set_policy}
use test_analyst_agent.Store.Rows.{Store, Setting, done}
use test_analyst_agent.Store.Settings.{setting, setting_key, set_setting, setting_row}
use test_analyst_agent.Store.Settings.Kept.{setting-set_setting, find-set_setting}
use test_analyst_agent.Tools.Replies.{Limits, explain, exception}
use test_analyst_agent.Tools.Policy.{policy, int_setting}
use test_analyst_agent.Tools.Propose.{Proposing, Asked, planned, propose_query}

-- What the call of the panel leaves.
set_policy-stores :
    (r : Session) (value by reason : String) (now : ℕ) (s : Store)
    → signed_in r ≡ true
    → is_blank reason ≡ false
    → set_setting "auto_max_rows" value by reason now s
      ≡ done (set_policy r "auto_max_rows" value by reason now s).0
unfolding set_policy set_setting
set_policy-stores r value by reason now s signed said = rw (signed, said) refl

policy-raises :
    (l : Limits) (s : Store) (w : Verdict) (estimate : Option ℕ) (row : Setting)
    → setting "auto_execute" "on" s ≡ "on"
    → find setting_key "auto_max_rows" s.settings ≡ some row
    → python_int row.value ≡ none
    → policy l s w estimate ≡ none
unfolding policy int_setting
policy-raises l s w estimate row on found bad = rw (on, found, bad) refl

propose-raises :
    (l : Limits) (env : Proposing) (a : Asked) (w : Verdict) (s : Store) (plan : Plan)
    → w.ok ≡ true
    → env.plan w.sql ≡ planned plan
    → policy l s w plan.estimated_rows ≡ none
    → propose_query l env a w s
      ≡ record { store = s; queries = explain w.sql ∷ []; reply = exception }
unfolding propose_query policy
propose-raises l env a w s plan good e bad = rw (good, e, bad) refl

-- When an analyst who is signed in stores a threshold for the rows that `int` cannot read, giving a reason,
-- while runs without an analyst are switched on: the panel accepts it, and from then on every text
-- that the guard rails pass and that can be planned ends propose_query with an exception, after its
-- plan was asked for; nothing is filed and nothing is written to the journal.
pub propose-bad_threshold :
    (l : Limits) (r : Session) (value by reason : String) (now : ℕ) (s : Store) (env : Proposing)
    (a : Asked) (w : Verdict) (plan : Plan)
    → signed_in r ≡ true
    → is_blank reason ≡ false
    → python_int value ≡ none
    → setting "auto_execute" "on" s ≡ "on"
    → w.ok ≡ true
    → env.plan w.sql ≡ planned plan
    → let after = (set_policy r "auto_max_rows" value by reason now s).0 in
      propose_query l env a w after
      ≡ record { store = after; queries = explain w.sql ∷ []; reply = exception }
propose-bad_threshold l r value by reason now s env a w plan signed said bad on good e =
    let after = (set_policy r "auto_max_rows" value by reason now s).0 in
    let stored = set_policy-stores r value by reason now s signed said in
    propose-raises l env a w after plan good e (
      policy-raises l after w plan.estimated_rows (setting_row "auto_max_rows" value by reason now)
        (setting-set_setting "auto_max_rows" value by reason now "auto_execute" "on" s after stored
          ∙ on)
        (find-set_setting "auto_max_rows" value by reason now "auto_max_rows" s after stored) bad)
