-- ===== src/Store/Settings.antt =====
-- The policy switches of mcp_server/src/sap_agent_mcp/store.py: setting, set_setting.
pub mod Kept
use test_analyst_agent.Common.{ℕ, String, Option, none, some, find, upsert, is_blank, if◌then◌else◌}
use test_analyst_agent.Store.Rows
use test_analyst_agent.Store.Rows.{
  Store, Setting, JournalEntry, Outcome, done, raised, value_error, changed,
}
use test_analyst_agent.Store.Journal.{write}

abbrev pub setting_key : Setting → String
setting_key row = row.key

abbrev pub value_or : String → Option Setting → String
value_or default none = default
value_or default (some row) = row.value

unfoldable pub setting : String → String → Store → String
setting key default s = value_or default (find setting_key key s.settings)

abbrev pub policy_entry : String → String → ℕ → JournalEntry
policy_entry by reason now = record {
  at = now;
  user_id = by;
  tool = Rows.policy;
  outcome = changed;
  trace_id = none;
  proposal_id = none;
  reason = some reason;
}

abbrev pub setting_row : String → String → String → String → ℕ → Setting
setting_row key value by reason now = record {
  key = key;
  value = value;
  updated_at = now;
  updated_by = by;
  reason = reason;
}

-- Every column but the key is written anew, so that the row is replaced.
unfoldable pub set_setting : String → String → String → String → ℕ → Store → Outcome Store
unfolding write
set_setting key value by reason now s =
    let row = setting_row key value by reason now in
    if is_blank reason
    then raised value_error
    else done (
        write (policy_entry by reason now)
          (record s { settings = upsert setting_key row s.settings }))
