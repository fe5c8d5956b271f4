-- ===== src/Guards/Checks.antt =====
-- The checks of mcp_server/src/sap_agent_mcp/guards.py, one by one.
use test_analyst_agent.Common.{
  ℕ, String, Bool, true, false, not, ◌&&◌, ◌||◌, Option, none, some, List, [], ◌∷◌, ◌++◌, map, keep,
  any, all, length, str_eq, upper, codes, occurs_in, is_in, sorted_set, get, strip_statement,
  if◌then◌else◌, ◌==◌, or_else,
}
use test_analyst_agent.Store.Rows.{Check, CheckStatus, passed, failed}
use test_analyst_agent.Semantic.Models.{SemanticModel, Table, Column, dotted}
use test_analyst_agent.Guards.Parser.{
  Parser, TableRef, ColumnRef, Count, literal, expression, LimitNode, fetch, limit, LimitOptions,
  Parsing, statements, parse_error, token_error, Schema,
}

-- _limit_value
abbrev count_value : Option Count → Option ℕ
count_value (some (literal n)) = some n
count_value (some expression) = none
count_value none = none

abbrev pub limit_value : Option LimitNode → Option ℕ
limit_value none = none
limit_value (some (fetch c options)) = count_value c
limit_value (some (limit c)) = count_value c

abbrev pub rows_only : LimitOptions
rows_only = record { percent = false; rows = true; with_ties = false }

-- _make_limit
abbrev pub make_limit : ℕ → LimitNode
make_limit rows = fetch (some (literal rows)) (some rows_only)

abbrev pub check_of : String → CheckStatus → Check
check_of id status = record { check_id = id; status = status }

pub record Guards : Type 0 where
  pub model : SemanticModel
  pub max_rows : ℕ
  pub schema : Schema
  pub allowed : List String
  pub masked : List String
  pub declared : List (String × String)

-- `alias_or_name` and `db or ""` in capitals
abbrev pub qualified_ref : TableRef → String
qualified_ref t = elim t.db [
  | none ↦ upper t.name
  | some db ↦ if str_eq db "" then upper t.name else dotted (upper db) (upper t.name)
]

abbrev pub table_name : TableRef → String
table_name t = dotted (upper (or_else t.db "")) (upper t.name)

abbrev table_of_alias : String → List TableRef → String
table_of_alias alias [] = alias
table_of_alias alias (t ∷ ts) =
    if str_eq (upper t.alias_or_name) alias then table_name t else table_of_alias alias ts

abbrev pub alias_of : ColumnRef → String
alias_of c = upper (or_else c.table "")

-- frozenset({a, b}) in declared
abbrev pub pair_in : String → String → List (String × String) → Bool
pair_in a b [] = false
pair_in a b ((x, y) ∷ rest) =
    ((str_eq x a && str_eq y b) || (str_eq x b && str_eq y a)) || pair_in a b rest

abbrev pair_of : List String → List (String × String)
pair_of (a ∷ b ∷ []) = (a, b) ∷ []
pair_of _ = []

abbrev pub has_dot : String → Bool
has_dot name = occurs_in (codes ".") (codes name)

-- `text` that is not empty
abbrev pub given : Option String → Bool
given none = false
given (some text) = not (str_eq text "")

abbrev column_in : String → String → List (String × String) → Bool
column_in a c [] = false
column_in a c ((x, y) ∷ rest) = (str_eq x a && str_eq y c) || column_in a c rest

abbrev pub flag : Bool → CheckStatus
flag b = if b then passed else failed

-- How the first check ends: with the statement, with a failure, or with the TokenError of the
-- tokenizer, which it does not catch.
pub data ReadOnly (E : Type 0) : Type 0 where
  reads : E → ReadOnly E
  fails raises : ReadOnly E

module _ (P : Parser) (g : Guards) where
  open P use {
    Expression, parse, is_query, is_write, walk, tables_of, columns_of, joins_of, on_of,
    equalities_of, qualify, scopes_of, limit_of, set_limit, print,
  }

  -- [s for s in statements if s is not None]
  pub present : List (Option Expression) → List Expression
  present [] = []
  present (none ∷ rest) = present rest
  present (some e ∷ rest) = e ∷ present rest

  abbrev pub one_query : List Expression → ReadOnly Expression
  one_query (e ∷ []) = if is_query e && not (any is_write (walk e)) then reads e else fails
  one_query _ = fails

  abbrev pub parsed : Parsing Expression → ReadOnly Expression
  parsed parse_error = fails
  parsed token_error = raises
  parsed (statements es) = one_query (present es)

  -- Guards._check_read_only: the statement, where the check passes
  unfoldable pub read_only : String → ReadOnly Expression
  unfolding present strip_statement
  read_only sql =
      let text = strip_statement sql in if str_eq text "" then fails else parsed (parse text)

  -- Guards._table_of
  abbrev pub table_of : Expression → ColumnRef → String
  table_of resolved c = table_of_alias (alias_of c) (tables_of resolved)

  unfoldable pub used_tables : Expression → List String
  used_tables e = map qualified_ref (tables_of e)

  unfoldable pub used_columns : Expression → List String
  used_columns resolved = sorted_set (
      map (λ (c : ColumnRef). dotted (table_of resolved c) (upper c.name))
        (keep (λ (c : ColumnRef). not (str_eq c.name "*")) (columns_of resolved)))

  -- Guards._check_allowlist: the resolved statement, where the check passes
  unfoldable pub allowlist : Expression → Option Expression
  unfolding used_tables
  allowlist e =
      let used = used_tables e in
      if all has_dot used && all (λ t. is_in t g.allowed) used then qualify g.schema e else none

  -- Guards._check_masking
  unfoldable pub masking_ok : List String → Bool
  masking_ok columns = not (any (λ c. is_in c g.masked) columns)

  -- The pairs of tables that a condition relates by an equality.
  unfoldable pub pairs_of : Expression → List Expression → List (String × String)
  pairs_of resolved [] = []
  pairs_of resolved (q ∷ qs) =
      pair_of (sorted_set (map (table_of resolved) (columns_of q))) ++ pairs_of resolved qs

  abbrev pub all_declared : List (String × String) → Bool
  all_declared [] = true
  all_declared ((a, b) ∷ rest) = pair_in a b g.declared && all_declared rest

  abbrev on_ok : Expression → Option Expression → Bool
  on_ok resolved none = false
  on_ok resolved (some on) =
      let pairs = pairs_of resolved (equalities_of on) in
      not (length pairs == 0) && all_declared pairs

  -- Guards._check_joins
  unfoldable pub joins_ok : Expression → Bool
  unfolding pairs_of
  joins_ok resolved = all (λ join. on_ok resolved (on_of join)) (joins_of resolved)

  abbrev column_names : Expression → List (String × String)
  column_names e = map (λ (c : ColumnRef). (alias_of c, upper c.name)) (columns_of e)

  abbrev joined_names : List Expression → List (String × String)
  joined_names [] = []
  joined_names (e ∷ es) = column_names e ++ joined_names es

  -- The columns that the conditions of a scope name.
  abbrev constrained : Option Expression → List Expression → List (String × String)
  constrained none joins = joined_names joins
  constrained (some e) joins = column_names e ++ joined_names joins

  -- A column with a rule that no condition names, with the test of which rule it is.
  abbrev lacks : (Column → Bool) → String → List (String × String) → Column → Bool
  lacks rule alias names c = rule c && not (column_in alias (upper c.name) names)

  abbrev lacking_in : (Column → Bool) → String → List (String × String) → Option Table → Bool
  lacking_in rule alias names none = false
  lacking_in rule alias names (some t) = any (lacks rule alias names) t.columns

  abbrev lacking_table : (Column → Bool) → List (String × String) → TableRef → Bool
  lacking_table rule names t =
      lacking_in rule (upper t.alias_or_name) names (get (upper t.name) g.model.tables)

  abbrev lacking_scope :
      (Column → Bool) → Option Expression × List Expression × List TableRef → Bool
  lacking_scope rule (condition, joins, tables) =
      any (lacking_table rule (constrained condition joins)) tables

  -- Some table occurrence lacks a filter of the kind that the test names.
  unfoldable pub lacking : (Column → Bool) → Expression → Bool
  unfolding get
  lacking rule resolved = any (lacking_scope rule) (scopes_of resolved)
