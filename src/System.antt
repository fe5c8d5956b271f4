-- ===== src/System.antt =====
-- The two processes over one store: the tools of the MCP server and the handlers of the panel, one
-- call after another.
pub mod Changes
pub mod Life
pub mod Once
pub mod Held
pub mod Thresholds
pub mod Switches
pub mod Answered
pub mod Approval
pub mod Edits
pub mod Vetted
use test_analyst_agent.Common.{ℕ, String, Option, List, [], ◌∷◌, ◌++◌}
use test_analyst_agent.Common.Int.{ℤ}
use test_analyst_agent.Store.Rows.{Store}
use test_analyst_agent.Guards.Verdict.{Verdict}
use test_analyst_agent.Semantic.Models.{SemanticModel}
use test_analyst_agent.Tools.Describe.{describe_schema}
use test_analyst_agent.Panel.Nominate.{Candidates, candidate}
use test_analyst_agent.Tools.Replies.{Limits, Query, Step}
use test_analyst_agent.Tools.Propose.{Proposing, Asked, propose_checked}
use test_analyst_agent.Tools.Execute.{Executing, Wanted, execute_query}
use test_analyst_agent.Tools.Sanity.{sanity_check}
use test_analyst_agent.Panel.{Session, Response, approve, reject, amend_proposal, grant, set_policy}

-- What the processes are started with: the limits, the guard rails and the dictionary.
pub record Service : Type 0 where
  pub limits : Limits
  pub guards : String → Option Verdict
  pub model : SemanticModel

-- The calls that can write to the store.
pub data Call : Type 0 where
  proposes : Proposing → Asked → Call
  executes : Executing → Wanted → Call
  checks_sanity : String → String → ℕ → Call
  describes : Option String → Option String → String → ℕ → Call
  nominates : Session → String → String → ℕ → String → Candidates → Call
  approves : Session → String → String → String → ℕ → Call
  rejects : Session → String → String → String → ℕ → Call
  amends : Session → String → String → String → String → String → ℕ → Call
  grants : Session → String → ℤ → String → ℕ → Call
  sets_policy : Session → String → String → String → String → ℕ → Call

abbrev of_tool : Step → Store × List Query
of_tool t = (t.store, t.queries)

abbrev of_panel : Store × Response → Store × List Query
of_panel (s, r) = (s, [])

-- One call: the state that it leaves, and the statements that it sent to the database.
unfoldable pub step : Service → Call → Store → Store × List Query
step v (proposes env a) s = of_tool (propose_checked v.limits env a (v.guards a.sql) s)
step v (executes env w) s = of_tool (execute_query v.limits env w s)
step v (checks_sanity id user now) s = of_tool (sanity_check v.limits id user now s)
step v (describes as_of table user now) s = ((describe_schema v.model as_of table user now s).0, [])
step v (nominates r id by now day files) s = ((candidate r id by now day s files).0.0, [])
step v (approves r id by note now) s = of_panel (approve r id by note now s)
step v (rejects r id by note now) s = of_panel (reject r id by note now s)
step v (amends r id new_id sql by note now) s =
    of_panel (amend_proposal r id new_id sql by note now s)
step v (grants r user extra reason now) s = of_panel (grant r user extra reason now s)
step v (sets_policy r key value by reason now) s = of_panel (set_policy r key value by reason now s)

-- A history: the last state, and all the statements in their order.
unfoldable pub history : Service → List Call → Store → Store × List Query
history v [] s = (s, [])
history v (c ∷ cs) s =
    let (s', qs) = step v c s in let (s'', rest) = history v cs s' in (s'', qs ++ rest)
