-- ===== src/Semantic/Models.antt =====
-- mcp_server/src/sap_agent_mcp/semantic/models.py, without the texts for people. A validator returns
-- the error that it raises, by its kind.
use test_analyst_agent.Common.{
  String, Bool, not, ◌&&◌, Option, none, some, List, [], ◌∷◌, ◌++◌, map, str_eq, upper, get,
  is_some, if◌then◌else◌, all, count, find, keep, ◌==◌, length,
}
use Prim.Native.String.{◌++◌ as str_append}

pub data ColumnType : Type 0 where
  string number date : ColumnType

pub record Column : Type 0 where
  pub name : String
  pub type : ColumnType
  pub key : Bool
  pub pii : Bool
  pub required_filter : Option String
  pub default_filter : Option String

pub record JoinKey : Type 0 where
  pub left : String
  pub right : String

pub record Relation : Type 0 where
  pub to : String
  pub join_on : List JoinKey

pub record Table : Type 0 where
  pub name : String
  pub columns : List Column
  pub relations : List Relation

pub record Metric : Type 0 where
  pub name : String
  pub base_table : String
  pub expression : String

pub record Domain : Type 0 where
  pub name : String
  pub db_schema : String

pub record SemanticModel : Type 0 where
  pub domains : List (String × Domain)
  pub tables : List (String × Table)
  pub metrics : List (String × Metric)
  pub table_domain : List (String × String)

pub data SemanticError : Type 0 where
  masked_key duplicate_columns : SemanticError
  unknown_target unknown_left unknown_right unknown_base_table : SemanticError
  no_sources domain_twice table_twice metric_twice : SemanticError

-- The first of two errors.
abbrev pub and_then : Option SemanticError → Option SemanticError → Option SemanticError
and_then none e = e
and_then (some a) e = some a

abbrev pub each {ℓ} : {A : Type ℓ} → (A → Option SemanticError) → List A → Option SemanticError
each f [] = none
each f (x ∷ xs) = and_then (f x) (each f xs)

abbrev pub unless : Bool → SemanticError → Option SemanticError
unless b e = if b then none else some e

-- Column._pii_columns_are_not_keys
unfoldable pub column_error : Column → Option SemanticError
column_error c = unless (not (c.pii && c.key)) masked_key

abbrev column_key : Column → String
column_key c = upper c.name

-- Table._column_names_are_unique, behind the validators of the columns
unfoldable pub table_error : Table → Option SemanticError
unfolding upper column_error
table_error t = and_then (each column_error t.columns) (
    unless (all (λ c. count (λ d. str_eq (column_key d) (column_key c)) t.columns == 1) t.columns)
      duplicate_columns)

-- Table.column
unfoldable pub find_column : Table → String → Option Column
unfolding find
find_column t name = find column_key (upper name) t.columns

-- Table.pii_columns
unfoldable pub pii_columns : Table → List String
pii_columns t = map (λ c. upper c.name) (keep (λ c. c.pii) t.columns)

unfoldable pub join_error : Table → Table → JoinKey → Option SemanticError
unfolding find_column
join_error table other k =
    and_then (unless (is_some (find_column table k.left)) unknown_left)
      (unless (is_some (find_column other k.right)) unknown_right)

abbrev pub target_error : Table → Relation → Option Table → Option SemanticError
target_error table r none = some unknown_target
target_error table r (some other) = each (join_error table other) r.join_on

unfoldable pub relation_error : List (String × Table) → Table → Relation → Option SemanticError
unfolding join_error get upper
relation_error tables table r = target_error table r (get (upper r.to) tables)

abbrev pub relations_error : List (String × Table) → String × Table → Option SemanticError
relations_error tables (k, t) = each (relation_error tables t) t.relations

abbrev pub metric_error : List (String × Table) → String × Metric → Option SemanticError
metric_error tables (k, metric) =
    unless (is_some (get (upper metric.base_table) tables)) unknown_base_table

-- SemanticModel._relations_and_metrics_point_at_known_tables
unfoldable pub model_error : SemanticModel → Option SemanticError
unfolding relation_error
model_error m =
    and_then (each (relations_error m.tables) m.tables) (each (metric_error m.tables) m.metrics)

abbrev pub dotted : String → String → String
dotted a b = str_append a (str_append "." b)

abbrev in_domain : Table → Option Domain → Option String
in_domain t none = none
in_domain t (some d) = some (dotted (upper d.db_schema) (upper t.name))

abbrev domain_named : SemanticModel → Option String → Option Domain
domain_named m none = none
domain_named m (some name) = get name m.domains

abbrev pub qualified_table : SemanticModel → Option Table → Option String
qualified_table m none = none
qualified_table m (some t) = in_domain t (domain_named m (get (upper t.name) m.table_domain))

-- SemanticModel.qualified; `none` is a KeyError
unfoldable pub qualified : SemanticModel → String → Option String
unfolding get upper
qualified m name = qualified_table m (get (upper name) m.tables)

abbrev pub both {ℓ} : {A : Type ℓ} → Option A → Option (List A) → Option (List A)
both none rest = none
both (some x) none = none
both (some x) (some xs) = some (x ∷ xs)

-- SemanticModel.allowed_tables
unfoldable pub allowed_in : SemanticModel → List (String × Table) → Option (List String)
unfolding qualified
allowed_in m [] = some []
allowed_in m ((name, t) ∷ rest) = both (qualified m name) (allowed_in m rest)

unfoldable pub allowed_tables : SemanticModel → Option (List String)
unfolding allowed_in
allowed_tables m = allowed_in m m.tables

abbrev pub masked_of : Table → Option String → Option (List String) → Option (List String)
masked_of t none rest = none
masked_of t (some q) none = none
masked_of t (some q) (some rest) = some (map (dotted q) (pii_columns t) ++ rest)

-- SemanticModel.masked_columns. The source looks a table's name up only where it has such columns.
unfoldable pub masked_in : SemanticModel → List (String × Table) → Option (List String)
unfolding qualified pii_columns
masked_in m [] = some []
masked_in m ((name, t) ∷ rest) =
    let others = masked_in m rest in
    if length (pii_columns t) == 0 then others else masked_of t (qualified m name) others

unfoldable pub masked_columns : SemanticModel → Option (List String)
unfolding masked_in
masked_columns m = masked_in m m.tables
