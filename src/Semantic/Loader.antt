-- ===== src/Semantic/Loader.antt =====
-- load of mcp_server/src/sap_agent_mcp/semantic/loader.py. A directory is what its files parse to:
-- the YAML reader and the patterns of the fields are not part of the model.
pub mod Placed
pub mod Named
use test_analyst_agent.Common.{
  String, Bool, true, false, Option, none, some, List, [], ◌∷◌, upper, get, put, is_some,
  if◌then◌else◌,
}
use test_analyst_agent.Semantic.Models.{
  Table, Metric, Domain, SemanticModel, SemanticError, no_sources, domain_twice, table_twice,
  metric_twice, table_error, model_error, each,
}

pub record Directory : Type 0 where
  pub domain : Domain
  pub tables : List Table
  pub metrics : List Metric

pub data Loaded : Type 0 where
  loaded : SemanticModel → Loaded
  broken : SemanticError → Loaded

abbrev pub go_on : Loaded → (SemanticModel → Loaded) → Loaded
go_on (loaded m) f = f m
go_on (broken e) f = broken e

abbrev pub with_table : Domain → Table → SemanticModel → SemanticModel
with_table d t m = record m {
  tables = put (upper t.name) t m.tables;
  table_domain = put (upper t.name) d.name m.table_domain;
}

unfoldable pub add_tables : Domain → List Table → SemanticModel → Loaded
add_tables d [] m = loaded m
add_tables d (t ∷ ts) m =
    let rest = add_tables d ts (with_table d t m) in
    if is_some (get (upper t.name) m.tables) then broken table_twice else rest

unfoldable pub add_metrics : List Metric → SemanticModel → Loaded
add_metrics [] m = loaded m
add_metrics (x ∷ xs) m =
    let rest = add_metrics xs (record m { metrics = put x.name x m.metrics }) in
    if is_some (get x.name m.metrics) then broken metric_twice else rest

abbrev pub table_errors : Directory → Option SemanticError
table_errors d = each table_error d.tables

abbrev pub with_domain : Domain → SemanticModel → SemanticModel
with_domain d m = record m { domains = put d.name d m.domains }

abbrev pub stop_on : Option SemanticError → Loaded → Loaded
stop_on none r = r
stop_on (some e) r = broken e

-- One directory: its own files are validated before its domain is added.
unfoldable pub add_directory : Directory → SemanticModel → Loaded
add_directory d m = stop_on (table_errors d) (
    if is_some (get d.domain.name m.domains)
    then broken domain_twice
    else go_on (add_tables d.domain d.tables (with_domain d.domain m)) (add_metrics d.metrics))

unfoldable pub add_directories : List Directory → SemanticModel → Loaded
add_directories [] m = loaded m
add_directories (d ∷ ds) m = go_on (add_directory d m) (add_directories ds)

abbrev pub nothing : SemanticModel
nothing = record { domains = []; tables = []; metrics = []; table_domain = [] }

abbrev pub validated : SemanticModel → Loaded
validated m = stop_on (model_error m) (loaded m)

abbrev is_empty : List Directory → Bool
is_empty [] = true
is_empty (d ∷ ds) = false

unfoldable pub load : List Directory → Loaded
load ds = if is_empty ds then broken no_sources else go_on (add_directories ds nothing) validated
