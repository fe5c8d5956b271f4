-- ===== src/Guards/Build.antt =====
-- Guards.__init__ and sqlglot_schema of mcp_server/src/sap_agent_mcp/guards.py, and the names that the
-- checks compare with.
pub mod Complete
use test_analyst_agent.Common.{
  ℕ, String, Option, none, some, List, [], ◌∷◌, ◌++◌, map, upper, get, put, or_else,
}
use test_analyst_agent.Semantic.Models.{
  SemanticModel, Table, Column, Relation, ColumnType, Domain, qualified, allowed_tables,
  masked_columns,
}
use test_analyst_agent.Guards.Parser.{Schema}
use test_analyst_agent.Guards.Checks.{Guards}

abbrev columns_of : Table → List (String × ColumnType)
columns_of t = map (λ (c : Column). (upper c.name, c.type)) t.columns

-- schema.setdefault(db, {})[name] = columns
abbrev add_to_schema : String → String × List (String × ColumnType) → Schema → Schema
add_to_schema db (name, columns) schema =
    put db (put name columns (or_else (get db schema) [])) schema

abbrev domain_found : Option Domain → String × Table → Schema → Option Schema
domain_found none entry schema = none
domain_found (some d) (name, t) schema =
    some (add_to_schema (upper d.db_schema) (name, columns_of t) schema)

abbrev domain_of : SemanticModel → Option String → Option Domain
domain_of m none = none
domain_of m (some name) = get name m.domains

abbrev go_on : Option Schema → (Schema → Option Schema) → Option Schema
go_on none f = none
go_on (some s) f = f s

schema_from : SemanticModel → List (String × Table) → Schema → Option Schema
unfolding get put
schema_from m [] schema = some schema
schema_from m ((name, t) ∷ rest) schema =
    go_on (domain_found (domain_of m (get name m.table_domain)) (name, t) schema)
      (schema_from m rest)

-- `none` is a KeyError
unfoldable pub sqlglot_schema : SemanticModel → Option Schema
unfolding schema_from
sqlglot_schema m = schema_from m m.tables []

abbrev pair :
    Option String
    → Option String
    → Option (List (String × String))
    → Option (List (String × String))
pair (some a) (some b) (some rest) = some ((a, b) ∷ rest)
pair _ _ _ = none

relations_from :
    SemanticModel
    → String
    → List Relation
    → Option (List (String × String))
    → Option (List (String × String))
unfolding qualified
relations_from m name [] rest = rest
relations_from m name (r ∷ rs) rest =
    pair (qualified m name) (qualified m r.to) (relations_from m name rs rest)

declared_from : SemanticModel → List (String × Table) → Option (List (String × String))
unfolding relations_from
declared_from m [] = some []
declared_from m ((name, t) ∷ rest) = relations_from m name t.relations (declared_from m rest)

-- The pairs of tables that the dictionary relates, as `_check_joins` collects them.
unfoldable pub declared_joins : SemanticModel → Option (List (String × String))
unfolding declared_from
declared_joins m = declared_from m m.tables

abbrev assemble :
    SemanticModel
    → ℕ
    → Option Schema
    → Option (List String)
    → Option (List String)
    → Option (List (String × String))
    → Option Guards
assemble m max_rows (some schema) (some allowed) (some masked) (some declared) = some (record {
  model = m;
  max_rows = max_rows;
  schema = schema;
  allowed = allowed;
  masked = masked;
  declared = declared;
})
assemble m max_rows _ _ _ _ = none

unfoldable pub guards_of : SemanticModel → ℕ → Option Guards
unfolding sqlglot_schema allowed_tables masked_columns declared_joins
guards_of m max_rows =
    assemble m max_rows (sqlglot_schema m) (allowed_tables m) (masked_columns m) (declared_joins m)
