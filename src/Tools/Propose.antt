-- ===== src/Tools/Propose.antt =====
-- Tools._propose_query of mcp_server/src/sap_agent_mcp/tools.py.
pub mod Effects
use test_analyst_agent.Common.{ℕ, String, true, Option, none, some, [], ◌∷◌, if◌then◌else◌}
use test_analyst_agent.Store.Rows
use test_analyst_agent.Store.Rows.{
  Store, Proposal, ProposalStatus, blocked, JournalEntry, Event, blocked_by_guards, explain_failed,
  Outcome, done, raised,
}
use test_analyst_agent.Store.Journal.{write}
use test_analyst_agent.Store.Proposals.{add_proposal}
use test_analyst_agent.Database.{Plan}
use test_analyst_agent.Guards.Verdict.{Verdict}
use test_analyst_agent.Tools.Replies.{
  Limits, PolicyReason, explain, proposed, blocked_by, plan_refused, exception, Step,
}
use test_analyst_agent.Tools.Policy.{policy, policy_status}

-- Database.explain: a plan, a QueryRefused, or a database error that is not caught.
pub data PlanOutcome : Type 0 where
  planned : Plan → PlanOutcome
  refused crashed : PlanOutcome

-- What a call is given from outside: the clock, a new id, the replica's moment, the database.
pub record Proposing : Type 0 where
  pub now : ℕ
  pub new_id : String
  pub as_of : Option String
  pub plan : String → PlanOutcome

pub record Asked : Type 0 where
  pub question : String
  pub sql : String
  pub user : String
  pub trace : Option String

abbrev pub propose_entry : Event → Option String → Proposing → Asked → JournalEntry
propose_entry outcome id env a = record {
  at = env.now;
  user_id = a.user;
  tool = Rows.propose_query;
  outcome = outcome;
  trace_id = a.trace;
  proposal_id = id;
  reason = none;
}

-- `limit_imposed` and the plan's columns keep their defaults.
abbrev pub blocked_proposal : Proposing → Asked → Verdict → Proposal
blocked_proposal env a v = record {
  id = env.new_id;
  created_at = env.now;
  user_id = a.user;
  trace_id = a.trace;
  question = a.question;
  sql = a.sql;
  status = blocked;
  checks = v.checks;
  tables = v.tables;
  columns = v.columns;
  row_limit = v.row_limit;
  limit_imposed = true;
  estimated_rows = none;
  plan = [];
  data_as_of = none;
  decided_at = none;
  decided_by = none;
  decision_note = none;
  supersedes = none;
}

abbrev pub planned_proposal : Proposing → Asked → Verdict → Plan → ProposalStatus → Proposal
planned_proposal env a v plan status = record {
  id = env.new_id;
  created_at = env.now;
  user_id = a.user;
  trace_id = a.trace;
  question = a.question;
  sql = v.sql;
  status = status;
  checks = v.checks;
  tables = v.tables;
  columns = v.columns;
  row_limit = v.row_limit;
  limit_imposed = v.limit_added;
  estimated_rows = plan.estimated_rows;
  plan = plan.lines;
  data_as_of = env.as_of;
  decided_at = none;
  decided_by = none;
  decision_note = none;
  supersedes = none;
}

abbrev pub record_blocked : Proposing → Asked → Verdict → Store → Outcome (Store × Proposal) → Step
record_blocked env a v s (done (s', p)) = record {
  store = write (propose_entry blocked_by_guards (some p.id) env a) s';
  queries = [];
  reply = blocked_by v.checks;
}
record_blocked env a v s (raised e) = record { store = s; queries = []; reply = exception }

abbrev pub record_planned :
    Proposing → Asked → Verdict → PolicyReason → Store → Outcome (Store × Proposal) → Step
record_planned env a v reason s (done (s', p)) = record {
  store = write (propose_entry Rows.ok (some p.id) env a) s';
  queries = explain v.sql ∷ [];
  reply = proposed p reason;
}
record_planned env a v reason s (raised e) = record {
  store = s;
  queries = explain v.sql ∷ [];
  reply = exception;
}

abbrev pub with_policy : Proposing → Asked → Verdict → Store → Plan → Option PolicyReason → Step
with_policy env a v s plan none = record {
  store = s;
  queries = explain v.sql ∷ [];
  reply = exception;
}
with_policy env a v s plan (some reason) =
    record_planned env a v reason s
      (add_proposal (planned_proposal env a v plan (policy_status reason)) s)

abbrev pub with_plan : Limits → Proposing → Asked → Verdict → Store → PlanOutcome → Step
with_plan l env a v s (planned plan) = with_policy env a v s plan (policy l s v plan.estimated_rows)
with_plan l env a v s refused = record {
  store = write (propose_entry explain_failed none env a) s;
  queries = explain v.sql ∷ [];
  reply = plan_refused v.checks;
}
with_plan l env a v s crashed = record {
  store = s;
  queries = explain v.sql ∷ [];
  reply = exception;
}

-- `v` is the verdict of the guard rails on the text that was proposed.
unfoldable pub propose_query : Limits → Proposing → Asked → Verdict → Store → Step
unfolding write add_proposal
propose_query l env a v s =
    if v.ok
    then with_plan l env a v s (env.plan v.sql)
    else record_blocked env a v s (add_proposal (blocked_proposal env a v) s)

-- _propose_query with the check of its text; `none` is the exception that the check ends in.
unfoldable pub propose_checked : Limits → Proposing → Asked → Option Verdict → Store → Step
unfolding propose_query
propose_checked l env a none s = record { store = s; queries = []; reply = exception }
propose_checked l env a (some w) s = propose_query l env a w s
