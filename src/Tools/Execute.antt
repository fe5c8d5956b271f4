-- ===== src/Tools/Execute.antt =====
-- Tools._execute_query of mcp_server/src/sap_agent_mcp/tools.py.
pub mod Effects
pub mod Settings
use test_analyst_agent.Common.{
  ℕ, zero, suc, String, Bool, false, not, ◌&&◌, Option, none, some, List, [], ◌∷◌, leb, str_eq,
  if◌then◌else◌,
}
use test_analyst_agent.Store.Rows
use test_analyst_agent.Store.Rows.{
  Store, Proposal, Result, JournalEntry, Event, started, finished, forbidden, stale_proposal,
  Outcome, done, raised, key_error, permission_error, value_error,
}
use test_analyst_agent.Store.Journal.{write, running}
use test_analyst_agent.Store.Limits.{Allowance, allowed, take_token}
use test_analyst_agent.Store.Proposals.{claim_for_execution, add_result}
use test_analyst_agent.Database.{Rows, RunOutcome, answered, timeout, refused, crashed}
use test_analyst_agent.Sanity.{Observation, check}
use test_analyst_agent.Sanity.Stored.{jsonable_rows}
use test_analyst_agent.Tools.Replies.{
  Limits, Query, run, Reply, rate_limited, busy_total, busy_own, no_proposal, foreign_proposal,
  not_executable, stale_data, query_failed, result_view, exception, Step,
}

-- What a call is given from outside: the clock at its start and at its end, the replica's moment,
-- the database (by text, row limit and timeout), a new id.
pub record Executing : Type 0 where
  pub now : ℕ
  pub finished_at : ℕ
  pub as_of : Option String
  pub as_of_after : Option String
  pub answer : String → ℕ → ℕ → RunOutcome
  pub result_id : String

pub record Wanted : Type 0 where
  pub proposal_id : String
  pub user : String
  pub trace : Option String

abbrev pub execute_entry : Event → ℕ → Wanted → JournalEntry
execute_entry outcome at w = record {
  at = at;
  user_id = w.user;
  tool = Rows.execute_query;
  outcome = outcome;
  trace_id = w.trace;
  proposal_id = some w.proposal_id;
  reason = none;
}

abbrev quiet : Store → Reply → Step
quiet s reply = record { store = s; queries = []; reply = reply }

-- `a and b and b != a`, where an empty text counts as no text
abbrev pub is_stale : Option String → Option String → Bool
is_stale (some planned) (some current) =
    not (str_eq planned "") && not (str_eq current "") && not (str_eq current planned)
is_stale (some planned) none = false
is_stale none c = false

-- `proposal.row_limit or limits.max_rows`: zero counts as no limit
abbrev pub limit_or : Option ℕ → ℕ → ℕ
limit_or none d = d
limit_or (some zero) d = d
limit_or (some (suc n)) d = suc n

abbrev pub run_of : Limits → Proposal → Query
run_of l p = run p.id p.sql (limit_or p.row_limit l.max_rows) l.query_timeout_seconds

abbrev pub new_result : Executing → Proposal → Rows → Result
new_result env p rows = record {
  id = env.result_id;
  proposal_id = p.id;
  created_at = env.finished_at;
  row_count = rows.row_count;
  truncated = rows.truncated;
  duration_ms = rows.duration_ms;
  columns = rows.columns;
  rows = jsonable_rows rows.rows;
}

abbrev with_report :
    Limits → Executing → Wanted → Proposal → Store → Result → Option (List Observation) → Step
with_report l env w p s r none = record { store = s; queries = run_of l p ∷ []; reply = exception }
with_report l env w p s r (some report) = record {
  store = write (execute_entry finished env.finished_at w) s;
  queries = run_of l p ∷ [];
  reply = result_view r report env.as_of_after;
}

abbrev with_result :
    Limits → Executing → Wanted → Proposal → Store → Rows → Outcome (Store × Result) → Step
with_result l env w p s rows (raised e) = record {
  store = s;
  queries = run_of l p ∷ [];
  reply = exception;
}
with_result l env w p s rows (done (s', r)) =
    with_report l env w p s' r (check rows (limit_or p.row_limit l.max_rows) p.limit_imposed)

-- The store holds the `started` entry already.
abbrev with_answer : Limits → Executing → Wanted → Proposal → Store → RunOutcome → Step
with_answer l env w p s (answered rows) =
    with_result l env w p s rows (add_result (new_result env p rows) s)
with_answer l env w p s timeout = record {
  store = write (execute_entry finished env.finished_at w) s;
  queries = run_of l p ∷ [];
  reply = query_failed;
}
with_answer l env w p s refused = record {
  store = write (execute_entry finished env.finished_at w) s;
  queries = run_of l p ∷ [];
  reply = query_failed;
}
with_answer l env w p s crashed = record { store = s; queries = run_of l p ∷ []; reply = exception }

unfoldable pub perform : Limits → Executing → Wanted → Proposal → Store → Step
unfolding write add_result
perform l env w p s =
    with_answer l env w p (write (execute_entry started env.now w) s)
      (env.answer p.sql (limit_or p.row_limit l.max_rows) l.query_timeout_seconds)

abbrev with_claim : Limits → Executing → Wanted → Store → Outcome (Store × Proposal) → Step
with_claim l env w s (done (s', p)) =
    if is_stale p.data_as_of env.as_of
    then quiet (write (execute_entry stale_proposal env.now w) s') stale_data
    else perform l env w p s'
with_claim l env w s (raised key_error) = quiet s no_proposal
with_claim l env w s (raised permission_error) =
    quiet (write (execute_entry forbidden env.now w) s) foreign_proposal
with_claim l env w s (raised value_error) = quiet s not_executable
with_claim l env w s (raised e) = quiet s exception

-- The two ceilings on what runs at once, then the claim.
unfoldable pub admit : Limits → Executing → Wanted → Store → Step
unfolding running claim_for_execution write
admit l env w s =
    if leb l.max_concurrent_total (running none 300 env.now s)
    then quiet s busy_total
    else if leb l.max_concurrent_per_user (running (some w.user) 300 env.now s)
    then quiet s busy_own
    else with_claim l env w s (claim_for_execution w.proposal_id w.user s)

abbrev with_token : Limits → Executing → Wanted → Store → Outcome (Store × Allowance) → Step
with_token l env w s (raised e) = quiet s exception
with_token l env w s (done (s', allowed)) = admit l env w s'
with_token l env w s (done (s', a)) =
    quiet (write (execute_entry Rows.rate_limited env.now w) s') (rate_limited a)

unfoldable pub execute_query : Limits → Executing → Wanted → Store → Step
unfolding write take_token
execute_query l env w s = with_token l env w s (take_token l.rate w.user env.now s)
