-- ===== src/Tools/Sanity.antt =====
-- Tools._sanity_check of mcp_server/src/sap_agent_mcp/tools.py.
use test_analyst_agent.Common.{ℕ, String, Bool, true, Option, none, some, List, []}
use test_analyst_agent.Store.Rows
use test_analyst_agent.Store.Rows.{
  Store, Proposal, Result, JournalEntry, Event, level_ok, level_attention, level_stop,
}
use test_analyst_agent.Store.Journal.{write}
use test_analyst_agent.Store.Proposals.{get_proposal, get_result}
use test_analyst_agent.Database.{Rows}
use test_analyst_agent.Sanity.{Level, Observation, ok, attention, stop, check, worst}
use test_analyst_agent.Tools.Replies.{Limits, no_result, sanity_report, exception, Step}
use test_analyst_agent.Tools.Execute.{limit_or}

abbrev level_event : Level → Event
level_event ok = level_ok
level_event attention = level_attention
level_event stop = level_stop

abbrev sanity_entry : Level → ℕ → String → String → JournalEntry
sanity_entry level now user proposal_id = record {
  at = now;
  user_id = user;
  tool = Rows.sanity_check;
  outcome = level_event level;
  trace_id = none;
  proposal_id = some proposal_id;
  reason = none;
}

abbrev pub rows_of : Result → Rows
rows_of r = record {
  columns = r.columns;
  rows = r.rows;
  row_count = r.row_count;
  truncated = r.truncated;
  duration_ms = r.duration_ms;
}

-- `(proposal.row_limit if proposal else None) or max_rows`, and `limit_imposed` with its default
abbrev pub limit_of : Limits → Option Proposal → ℕ
limit_of l none = l.max_rows
limit_of l (some p) = limit_or p.row_limit l.max_rows

abbrev pub imposed_of : Option Proposal → Bool
imposed_of none = true
imposed_of (some p) = p.limit_imposed

abbrev with_report : String → ℕ → Store → Result → Option (List Observation) → Step
with_report user now s r none = record { store = s; queries = []; reply = exception }
with_report user now s r (some report) = record {
  store = write (sanity_entry (worst report) now user r.proposal_id) s;
  queries = [];
  reply = sanity_report r.id report;
}

abbrev with_result : Limits → String → ℕ → Store → Option Result → Step
with_result l user now s none = record { store = s; queries = []; reply = no_result }
with_result l user now s (some r) =
    let p = get_proposal r.proposal_id s in
    with_report user now s r (check (rows_of r) (limit_of l p) (imposed_of p))

unfoldable pub sanity_check : Limits → String → String → ℕ → Store → Step
unfolding write get_result get_proposal
sanity_check l result_id user now s = with_result l user now s (get_result result_id s)
