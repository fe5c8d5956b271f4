-- ===== src/Tools/Policy.antt =====
-- Tools._policy of mcp_server/src/sap_agent_mcp/tools.py: what runs without an analyst.
pub mod Thresholds
use test_analyst_agent.Common.{
  ℕ, String, not, Option, none, some, length, str_eq, find, if◌then◌else◌, ◌==◌,
}
use test_analyst_agent.Common.Int.{ℤ, pos, ltb_ℤ}
use test_analyst_agent.Common.Decimal.{python_int}
use test_analyst_agent.Store.Rows.{Store, Setting, ProposalStatus, pending, auto}
use test_analyst_agent.Store.Settings.{setting, setting_key}
use test_analyst_agent.Guards.Verdict.{Verdict, warnings}
use test_analyst_agent.Tools.Replies.{
  Limits, PolicyReason, switched_off, has_warnings, too_many_tables, no_estimate, too_many_rows,
  simple,
}

-- int(self.store.setting(key, str(default)))
abbrev int_or : ℕ → Option Setting → Option ℤ
int_or default none = some (pos default)
int_or default (some row) = python_int row.value

unfoldable pub int_setting : String → ℕ → Store → Option ℤ
int_setting key default s = int_or default (find setting_key key s.settings)

abbrev by_estimate : ℤ → Option ℕ → PolicyReason
by_estimate max_rows none = no_estimate
by_estimate max_rows (some rows) = if ltb_ℤ max_rows (pos rows) then too_many_rows else simple

abbrev by_size : Verdict → Option ℕ → ℤ → ℤ → PolicyReason
by_size v estimate max_rows max_tables =
    if not (length (warnings v) == 0)
    then has_warnings
    else if ltb_ℤ max_tables (pos (length v.tables))
    then too_many_tables
    else by_estimate max_rows estimate

abbrev with_thresholds : Verdict → Option ℕ → Option ℤ → Option ℤ → Option PolicyReason
with_thresholds v estimate (some max_rows) (some max_tables) =
    some (by_size v estimate max_rows max_tables)
with_thresholds v estimate (some max_rows) none = none
with_thresholds v estimate none t = none

-- `none` is the ValueError of `int` at a threshold that is no number.
unfoldable pub policy : Limits → Store → Verdict → Option ℕ → Option PolicyReason
unfolding setting int_setting
policy l s v estimate =
    if not (str_eq (setting "auto_execute" "on" s) "on")
    then some switched_off
    else with_thresholds v estimate (int_setting "auto_max_rows" l.auto_max_rows s)
        (int_setting "auto_max_tables" l.auto_max_tables s)

abbrev pub policy_status : PolicyReason → ProposalStatus
policy_status simple = auto
policy_status _ = pending
