-- ===== src/Database/Explain.antt =====
-- Database.explain and replica_as_of of mcp_server/src/sap_agent_mcp/db.py, over what the driver
-- answers. A plan's cost, which nothing decides on, is left out, and so are the moments that a
-- connection or a later statement fails: those exceptions go through.
use test_analyst_agent.Common.{
  ℕ, String, Bool, true, ◌&&◌, ◌||◌, ◌≡◌, refl, Option, none, some, List, [], ◌∷◌, map, all, length,
  codes, leb, ◌==◌, if◌then◌else◌, arith,
}
use Prim.Native.String.{◌++◌ as str_append}
use test_analyst_agent.Database.{Plan}

-- A row of plan_table: the step, its cardinality and its id.
pub record PlanRow : Type 0 where
  pub step : String
  pub cardinality : Option ℕ
  pub id : ℕ

-- What the driver does with an EXPLAIN PLAN: it can be read, or it raises a database error.
pub data PlanCursor : Type 0 where
  read : List PlanRow → PlanCursor
  rejected : PlanCursor

pub data PlanReply : Type 0 where
  planned : Plan → PlanReply
  refused : PlanReply

abbrev is_word : ℕ → Bool
is_word c = (leb 65 c && leb c 90) || (leb 97 c && leb c 122) || (leb 48 c && leb c 57) || c == 95

-- re.fullmatch(r"[A-Za-z0-9_]{1,30}", statement_id)
abbrev pub is_statement_id : List ℕ → Bool
is_statement_id id = leb 1 (length id) && leb (length id) 30 && all is_word id

-- next((row for row in fetched if row[3] == 0), None), and its cardinality
abbrev pub root_rows : List PlanRow → Option ℕ
root_rows [] = none
root_rows (row ∷ rows) = if row.id == 0 then row.cardinality else root_rows rows

abbrev pub statement : String → String → String
statement id sql =
    str_append "EXPLAIN PLAN SET STATEMENT_ID = '" (str_append id (str_append "' FOR " sql))

-- What is sent: the EXPLAIN PLAN by its text, then the query and the deletion of its rows by the id.
pub data Sent : Type 0 where
  explains reads_plan clears_plan : String → Sent

abbrev pub sent_by : String → String → PlanCursor → List Sent
sent_by id text (read rows) = explains text ∷ reads_plan id ∷ clears_plan id ∷ []
sent_by id text rejected = explains text ∷ []

abbrev pub plan_reply : PlanCursor → PlanReply
plan_reply (read rows) =
    planned (record { lines = map (λ (r : PlanRow). r.step) rows; estimated_rows = root_rows rows })
plan_reply rejected = refused

-- Database.explain: the statements that it sends, and what it returns
unfoldable pub explain : String → String → (String → PlanCursor) → List Sent × PlanReply
explain sql id answer =
    let cursor = answer (statement id sql) in
    if is_statement_id (codes id)
    then (sent_by id (statement id sql) cursor, plan_reply cursor)
    else ([], refused)

-- The answer to SELECT as_of: a row with a moment or without, no row, or a database error.
pub data AsOf : Type 0 where
  moment : String → AsOf
  empty_row no_row database_error : AsOf

-- Database.replica_as_of
unfoldable pub replica_as_of : AsOf → Option String
replica_as_of (moment iso) = some iso
replica_as_of empty_row = none
replica_as_of no_row = none
replica_as_of database_error = none

-- A hex digit of secrets.token_hex
abbrev pub is_hex : ℕ → Bool
is_hex c = (leb 48 c && leb c 57) || (leb 97 c && leb c 102)

all-more :
    (f g : ℕ → Bool) (xs : List ℕ)
    → ((c : ℕ) → f c ≡ true → g c ≡ true)
    → all f xs ≡ true
    → all g xs ≡ true
all-more f g [] h a = refl
all-more f g (x ∷ xs) h a = ground (arith, h x, all-more f g xs h)

is_hex-word : (c : ℕ) → is_hex c ≡ true → is_word c ≡ true
is_hex-word c h = ground arith

-- The id of a proposal, "prop_" and 16 hex digits, is one that explain accepts: it sends the EXPLAIN PLAN
-- of the query and returns what the driver answers to it.
pub explain-accepts :
    (id sql : String) (answer : String → PlanCursor) (token : List ℕ)
    → codes id ≡ 112 ∷ 114 ∷ 111 ∷ 112 ∷ 95 ∷ token
    → length token ≡ 16
    → all is_hex token ≡ true
    → explain sql id answer ≡ (
      sent_by id (statement id sql) (answer (statement id sql)),
      plan_reply (answer (statement id sql)),
    )
unfolding explain
explain-accepts id sql answer token e n h =
    let words = all-more is_hex is_word token is_hex-word h in rw e (rw words (rw n refl))
