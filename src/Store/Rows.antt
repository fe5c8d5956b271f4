-- ===== src/Store/Rows.antt =====
-- The tables of mcp_server/src/sap_agent_mcp/store.py, and the exceptions that its methods raise.
-- A moment is a number of microseconds since the epoch, in UTC. Columns that hold an `int | None`
-- of the database's estimate are options of numbers; `bonus` is any Python integer.
use test_analyst_agent.Common.{ℕ, String, Bool, Option, List, [], true, false}
use test_analyst_agent.Common.Int.{ℤ}

pub data ProposalStatus : Type 0 where
  pending approved auto rejected executed superseded blocked : ProposalStatus

abbrev pub is_pending : ProposalStatus → Bool
is_pending pending = true
is_pending _ = false

-- `status in (APPROVED, AUTO)`
abbrev pub can_run : ProposalStatus → Bool
can_run approved = true
can_run auto = true
can_run _ = false

-- The status of one guard rail: guards.py, Status.
pub data CheckStatus : Type 0 where
  passed warning failed : CheckStatus

-- guards.py, Check, without its texts for people.
pub record Check : Type 0 where
  pub check_id : String
  pub status : CheckStatus

pub record Proposal : Type 0 where
  pub id : String
  pub created_at : ℕ
  pub user_id : String
  pub trace_id : Option String
  pub question : String
  pub sql : String
  pub status : ProposalStatus
  pub checks : List Check
  pub tables : List String
  pub columns : List String
  pub row_limit : Option ℕ
  pub limit_imposed : Bool
  pub estimated_rows : Option ℕ
  pub plan : List String
  pub data_as_of : Option String
  pub decided_at : Option ℕ
  pub decided_by : Option String
  pub decision_note : Option String
  pub supersedes : Option String

-- A value of a result: what the driver returns, and what JSON keeps of it. A number is a
-- fixed-point integer; `moment` is a value with `isoformat`, `other` any further object by its `str`.
pub data Cell : Type 0 where
  null : Cell
  flag : Bool → Cell
  number : ℤ → Cell
  words : String → Cell
  moment : String → Cell
  other : String → Cell

pub record Result : Type 0 where
  pub id : String
  pub proposal_id : String
  pub created_at : ℕ
  pub row_count : ℕ
  pub truncated : Bool
  pub duration_ms : ℕ
  pub columns : List String
  pub rows : List (List Cell)

pub data Tool : Type 0 where
  describe_schema propose_query execute_query sanity_check panel limits policy : Tool

pub data Event : Type 0 where
  ok not_found blocked_by_guards explain_failed rate_limited forbidden stale_proposal : Event
  started finished changed granted approved_by rejected_by amended nominated : Event
  level_ok level_attention level_stop : Event

-- `detail` is left out but for the reason that `grant_bonus` and `set_setting` demand.
pub record JournalEntry : Type 0 where
  pub at : ℕ
  pub user_id : String
  pub tool : Tool
  pub outcome : Event
  pub trace_id : Option String
  pub proposal_id : Option String
  pub reason : Option String

pub record Setting : Type 0 where
  pub key : String
  pub value : String
  pub updated_at : ℕ
  pub updated_by : String
  pub reason : String

-- `tokens` is a float, by its place among the floats: see Limits.
pub record RateState : Type 0 where
  pub user_id : String
  pub tokens : ℤ
  pub updated_at : ℕ
  pub day : ℕ
  pub day_count : ℕ
  pub bonus : ℤ

pub record Store : Type 0 where
  pub proposals : List Proposal
  pub results : List Result
  pub journal : List JournalEntry
  pub settings : List Setting
  pub rate_states : List RateState

pub data StoreError : Type 0 where
  key_error value_error permission_error : StoreError
  integrity_error zero_division overflow_error : StoreError

-- A method returns, or raises and leaves the database as it was: its session is not committed.
pub data Outcome {ℓ} (A : Type ℓ) : Type ℓ where
  done : A → Outcome A
  raised : StoreError → Outcome A

abbrev pub empty : Store
empty = record { proposals = []; results = []; journal = []; settings = []; rate_states = [] }
