-- ===== src/Tools/Replies.antt =====
-- What a tool call of mcp_server/src/sap_agent_mcp/tools.py returns and does: its reply, the state it
-- leaves, and the statements that it sends to the database. The texts for people are left out: each
-- refusal of the source is a constructor.
use test_analyst_agent.Common.{ℕ, String, Option, List}
use test_analyst_agent.Store.Rows.{Store, Check, Proposal, Result}
use test_analyst_agent.Store.Limits.{RateLimits, Allowance}
use test_analyst_agent.Sanity.{Observation}

-- config.py, Limits
pub record Limits : Type 0 where
  pub rate : RateLimits
  pub open rate use *
  pub max_concurrent_per_user : ℕ
  pub max_concurrent_total : ℕ
  pub max_rows : ℕ
  pub query_timeout_seconds : ℕ
  pub auto_max_rows : ℕ
  pub auto_max_tables : ℕ

-- Why a proposal waits or runs by itself.
pub data PolicyReason : Type 0 where
  switched_off has_warnings too_many_tables no_estimate too_many_rows simple : PolicyReason

-- A statement that reaches the database.
pub data Query : Type 0 where
  explain : String → Query
  run : String → String → ℕ → ℕ → Query

pub data Reply : Type 0 where
  proposed : Proposal → PolicyReason → Reply
  blocked_by : List Check → Reply
  plan_refused : List Check → Reply
  rate_limited : Allowance → Reply
  busy_total busy_own : Reply
  no_proposal foreign_proposal not_executable : Reply
  stale_data : Reply
  query_failed : Reply
  result_view : Result → List Observation → Option String → Reply
  no_result : Reply
  sanity_report : String → List Observation → Reply
  -- an exception that the tool does not catch
  exception : Reply

pub record Step : Type 0 where
  pub store : Store
  pub queries : List Query
  pub reply : Reply
