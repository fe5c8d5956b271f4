-- ===== src/Server.antt =====
-- build_server of mcp_server/src/sap_agent_mcp/server.py: who calls, and what each tool of the server
-- makes of a request. Headers and arguments come parsed; the transport is a library.
pub mod Owned
use test_analyst_agent.Common.{
  ℕ, String, Bool, Option, none, some, List, [], ◌∷◌, get, put, lower, str_eq, if◌then◌else◌,
}
use test_analyst_agent.Store.Rows.{Store}
use test_analyst_agent.Tools.Replies.{Query}
use test_analyst_agent.Tools.Propose.{Proposing}
use test_analyst_agent.Tools.Execute.{Executing}
use test_analyst_agent.System.{Service, Call, proposes, executes, checks_sanity, describes, step}

-- What a request comes with: its headers, and DEFAULT_ANALYST_ID of the environment.
pub record Gateway : Type 0 where
  pub headers : List (String × String)
  pub default_analyst : Option String

-- A call of a tool, with the arguments that the agent chooses.
pub data ToolRequest : Type 0 where
  describe_schema : Option String → ToolRequest
  propose_query : String → String → ToolRequest
  execute_query sanity_check : String → ToolRequest

-- What a call meets: the clock, new ids and the database.
pub record Around : Type 0 where
  pub proposing : Proposing
  pub executing : Executing
  pub now : ℕ
  pub as_of : Option String

abbrev lowered_over : List (String × String) → List (String × String) → List (String × String)
lowered_over d [] = d
lowered_over d ((k, v) ∷ rest) = lowered_over (put (lower k) v d) rest

-- {k.lower(): v for k, v in headers.items()}
unfoldable pub lowered : List (String × String) → List (String × String)
unfolding put lower
lowered headers = lowered_over [] headers

abbrev pub non_empty : Option String → Option String
non_empty none = none
non_empty (some text) = if str_eq text "" then none else some text

abbrev pub first_of : Option String → Option String → Option String
first_of none b = b
first_of (some a) b = some a

abbrev pub with_trace : Option String → Option String → Option (String × Option String)
with_trace none trace = none
with_trace (some analyst) trace = some (analyst, trace)

-- identity; `none` is its ValueError
unfoldable pub identity : Gateway → Option (String × Option String)
unfolding lowered get
identity g =
    let headers = lowered g.headers in
    with_trace (first_of (non_empty (get "x-analyst-id" headers)) (non_empty g.default_analyst))
      (get "x-trace-id" headers)

-- The call of a tool under a name.
abbrev pub call_by : Around → String × Option String → ToolRequest → Call
call_by a (analyst, trace) (describe_schema table) = describes a.as_of table analyst a.now
call_by a (analyst, trace) (propose_query question sql) =
    proposes a.proposing (record { question = question; sql = sql; user = analyst; trace = trace })
call_by a (analyst, trace) (execute_query id) =
    executes a.executing (record { proposal_id = id; user = analyst; trace = trace })
call_by a (analyst, trace) (sanity_check id) = checks_sanity id analyst a.now

abbrev pub served :
    Service
    → Around
    → ToolRequest
    → Store
    → Option (String × Option String)
    → Option (Store × List Query)
served v a request s none = none
served v a request s (some who) = some (step v (call_by a who request) s)

-- A request to the server: the store that it leaves and the statements that it sends; `none` is a
-- request that is refused for want of a name, before any tool is called.
unfoldable pub serve :
    Service → Gateway → Around → ToolRequest → Store → Option (Store × List Query)
unfolding identity step
serve v g a request s = served v a request s (identity g)
