-- ===== src/Tools/Describe.antt =====
-- Tools._describe_schema of mcp_server/src/sap_agent_mcp/tools.py: the dictionary as the agent gets it,
-- without the texts for people. `none` is a KeyError of a look-up.
pub mod Views
pub mod Answers
pub mod Named
pub mod Journal
use test_analyst_agent.Common.{
  ℕ, String, Bool, true, false, Option, none, some, List, [], ◌∷◌, map, get, upper, squeeze,
  sort_by, entry_key, str_eq, if◌then◌else◌,
}
use Prim.Native.String.{◌∷◌ as cons, [] as empty, ◌++◌ as str_append}
use Prim.Native.Char.{Char, code}
use test_analyst_agent.Store.Rows
use test_analyst_agent.Store.Rows.{Store, JournalEntry, Event, ok, not_found}
use test_analyst_agent.Store.Journal.{write}
use test_analyst_agent.Semantic.Models.{
  SemanticModel, Table, Column, ColumnType, Relation, JoinKey, Metric, qualified, both,
}

pub record ColumnView : Type 0 where
  pub name : String
  pub type : ColumnType
  pub key : Bool
  pub masked : Bool
  pub required_filter : Option String

pub record RelationView : Type 0 where
  pub to : String
  pub on : List String

pub record TableView : Type 0 where
  pub name : String
  pub columns : List ColumnView
  pub relations : List RelationView

pub record MetricView : Type 0 where
  pub name : String
  pub base_table : String
  pub expression : String

pub record Dictionary : Type 0 where
  pub data_as_of : Option String
  pub tables : List TableView
  pub metrics : List MetricView

-- What a call returns, or that it ends in an exception.
pub data Description : Type 0 where
  not_in_dictionary : List String → Description
  dictionary : Dictionary → Description
  exception : Description

-- text.removeprefix("SH.")
abbrev pub without_schema : String → String
without_schema (cons a (cons b (cons c rest))) =
    if str_eq (cons a (cons b (cons c empty))) "SH." then rest else cons a (cons b (cons c rest))
without_schema s = s

abbrev pub column_view : Column → ColumnView
column_view c = record {
  name = c.name;
  type = c.type;
  key = c.key;
  masked = c.pii;
  required_filter = c.required_filter;
}

abbrev pub on_text : JoinKey → String
on_text k = str_append k.left (str_append " = " k.right)

abbrev relation_named : Relation → Option String → Option RelationView
relation_named r none = none
relation_named r (some to) = some (record { to = to; on = map on_text r.join_on })

abbrev pub relation_views : SemanticModel → List Relation → Option (List RelationView)
relation_views m [] = some []
relation_views m (r ∷ rs) = both (relation_named r (qualified m r.to)) (relation_views m rs)

abbrev pub table_named : Table → Option String → Option (List RelationView) → Option TableView
table_named t (some name) (some relations) =
    some (record { name = name; columns = map column_view t.columns; relations = relations })
table_named t _ _ = none

abbrev pub table_view : SemanticModel → String × Table → Option TableView
table_view m (name, t) = table_named t (qualified m name) (relation_views m t.relations)

abbrev pub table_views : SemanticModel → List (String × Table) → Option (List TableView)
table_views m [] = some []
table_views m (entry ∷ rest) = both (table_view m entry) (table_views m rest)

abbrev metric_named : Metric → Option String → Option MetricView
metric_named x none = none
metric_named x (some base) =
    some (record { name = x.name; base_table = base; expression = squeeze x.expression })

abbrev pub metric_view : SemanticModel → Metric → Option MetricView
metric_view m x = metric_named x (qualified m x.base_table)

abbrev pub metric_views : SemanticModel → List Metric → Option (List MetricView)
metric_views m [] = some []
metric_views m (x ∷ xs) = both (metric_view m x) (metric_views m xs)

abbrev pub metric_key : Metric → String
metric_key x = x.name

-- The values of a dictionary
abbrev pub values_of {ℓ} : {V : Type ℓ} → List (String × V) → List V
values_of [] = []
values_of ((k, v) ∷ rest) = v ∷ values_of rest

abbrev pub payload :
    Option String → Option (List TableView) → Option (List MetricView) → Description
payload as_of (some tables) (some metrics) =
    dictionary (record { data_as_of = as_of; tables = tables; metrics = metrics })
payload as_of _ _ = exception

unfoldable pub describe_tables : SemanticModel → Option String → List (String × Table) → Description
unfolding qualified squeeze sort_by
describe_tables m as_of tables =
    payload as_of (table_views m (sort_by entry_key tables))
      (metric_views m (sort_by metric_key (values_of m.metrics)))

abbrev pub entry_keys : List (String × Table) → List String
entry_keys entries = map entry_key entries

abbrev pub describe_found : SemanticModel → Option String → String → Option Table → Description
describe_found m as_of key none = not_in_dictionary (entry_keys (sort_by entry_key m.tables))
describe_found m as_of key (some t) = describe_tables m as_of ((key, t) ∷ [])

-- The reply to a table's name; an empty one asks for all of them.
unfoldable pub describe : SemanticModel → Option String → Option String → Description
unfolding describe_tables upper get
describe m as_of none = describe_tables m as_of m.tables
describe m as_of (some table) =
    let key = without_schema (upper table) in
    if str_eq table ""
    then describe_tables m as_of m.tables
    else describe_found m as_of key (get key m.tables)

abbrev describe_entry : Event → String → ℕ → JournalEntry
describe_entry outcome user now = record {
  at = now;
  user_id = user;
  tool = Rows.describe_schema;
  outcome = outcome;
  trace_id = none;
  proposal_id = none;
  reason = none;
}

abbrev pub after_description : Description → String → ℕ → Store → Store
after_description (not_in_dictionary names) user now s = write (describe_entry not_found user now) s
after_description (dictionary d) user now s = write (describe_entry ok user now) s
after_description exception user now s = s

-- Tools._describe_schema
unfoldable pub describe_schema :
    SemanticModel → Option String → Option String → String → ℕ → Store → Store × Description
unfolding describe write
describe_schema m as_of table user now s =
    let reply = describe m as_of table in (after_description reply user now s, reply)
