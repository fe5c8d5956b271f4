-- ===== src/Guards/Parser.antt =====
-- What guards.py uses of sqlglot, the SQL parser, which is not part of the repository.
use test_analyst_agent.Common.{ℕ, String, Bool, ◌≡◌, Option, some, List}
use test_analyst_agent.Semantic.Models.{ColumnType}

-- exp.Table: its name, its schema, and the name that its columns go by.
pub record TableRef : Type 0 where
  pub name : String
  pub db : Option String
  pub alias_or_name : String

-- exp.Column: its name, and the table that qualifies it.
pub record ColumnRef : Type 0 where
  pub name : String
  pub table : Option String

-- The count of a row limit: a whole number, or anything else.
pub data Count : Type 0 where
  literal : ℕ → Count
  expression : Count

-- exp.LimitOptions: what follows the count of a FETCH clause.
pub record LimitOptions : Type 0 where
  pub percent : Bool
  pub rows : Bool
  pub with_ties : Bool

-- exp.Fetch, FETCH FIRST n ROWS ONLY with its options, or exp.Limit, LIMIT n; the count may be left out.
pub data LimitNode : Type 0 where
  fetch : Option Count → Option LimitOptions → LimitNode
  limit : Option Count → LimitNode

-- How sqlglot.parse ends: the statements, a ParseError, or the TokenError of its tokenizer.
pub data Parsing (E : Type 0) : Type 0 where
  statements : List (Option E) → Parsing E
  parse_error token_error : Parsing E

-- The schema that name resolution is given: by database, table and column.
abbrev pub Schema : Type 0
Schema = List (String × List (String × List (String × ColumnType)))

pub record Parser : Type 1 where
  pub Expression : Type 0
  pub parse : String → Parsing Expression
  -- Select, Union, Except or Intersect
  pub is_query : Expression → Bool
  -- Insert, Update, Delete, Merge, Create, Drop, Alter or Command
  pub is_write : Expression → Bool
  pub walk : Expression → List Expression
  pub tables_of : Expression → List TableRef
  pub columns_of : Expression → List ColumnRef
  pub joins_of : Expression → List Expression
  pub on_of : Expression → Option Expression
  pub equalities_of : Expression → List Expression
  -- every column resolved to its table; `none` is an error of the optimizer
  pub qualify : Schema → Expression → Option Expression
  -- for each scope: its WHERE, its joins, its tables
  pub scopes_of : Expression → List (Option Expression × List Expression × List TableRef)
  pub limit_of : Expression → Option LimitNode
  pub set_limit : LimitNode → Expression → Expression
  pub print : Expression → String
  -- what `set` stores is what `args.get` finds
  pub limit_of-set_limit : (n : LimitNode) (e : Expression) → limit_of (set_limit n e) ≡ some n
