-- ===== src/Tests/Guards.antt =====
-- The guard rails on a small parser, which knows one text.
use test_analyst_agent.Common.{
  ◌≡◌, refl, String, true, false, Option, none, some, List, [], ◌∷◌, str_eq, if◌then◌else◌, upper,
  is_some,
}
use test_analyst_agent.Semantic.Models.{
  SemanticModel, Table, Column, Domain, string, table_error, model_error,
}
use test_analyst_agent.Semantic.Loader.{
  Directory, load, loaded, add_directories, add_directory, add_tables, add_metrics,
}
use test_analyst_agent.Common.{get, put, occurs_in, is_in, sorted_set}
use test_analyst_agent.Guards.Parser.{
  Parser, TableRef, ColumnRef, LimitNode, statements, parse_error, token_error,
}
use test_analyst_agent.Guards.Verdict.{Verdict}
use test_analyst_agent.Guards.Checks.{
  Guards, read_only, allowlist, masking_ok, used_columns, joins_ok, lacking,
}
use test_analyst_agent.Guards.Build.{guards_of}
use test_analyst_agent.Guards.Build.Complete.{load-guards}
use test_analyst_agent.Guards.Run.{check, default_filters, verdict_of}
use test_analyst_agent.Guards.Run.Sound.{Accepted, check-Accepted}

abbrev pub mandt : Column
mandt = record {
  name = "mandt";
  type = string;
  key = true;
  pii = false;
  required_filter = some "= '100'";
  default_filter = none;
}

abbrev pub customer : Column
customer = record {
  name = "name1";
  type = string;
  key = false;
  pii = true;
  required_filter = none;
  default_filter = none;
}

abbrev pub billing : Table
billing = record { name = "ZVBRP"; columns = mandt ∷ customer ∷ []; relations = [] }

abbrev pub sales : Domain
sales = record { name = "sales"; db_schema = "sh" }

abbrev pub directory : Directory
directory = record { domain = sales; tables = billing ∷ []; metrics = [] }

abbrev pub dictionary : SemanticModel
dictionary = record {
  domains = ("sales", sales) ∷ [];
  tables = ("ZVBRP", billing) ∷ [];
  metrics = [];
  table_domain = ("ZVBRP", "sales") ∷ [];
}

pub dictionary_loads : load (directory ∷ []) ≡ loaded dictionary
unfolding load add_directories add_directory table_error get add_tables add_metrics model_error put
dictionary_loads = refl

-- A query of one table with the columns it selects and the columns of its condition.
pub record Query : Type 0 where
  pub tables : List TableRef
  pub columns : List ColumnRef
  pub condition : List ColumnRef
  pub limit_to : Option LimitNode

abbrev pub from_zvbrp : TableRef
from_zvbrp = record { name = "ZVBRP"; db = some "SH"; alias_or_name = "ZVBRP" }

abbrev pub mandt_ref : ColumnRef
mandt_ref = record { name = "MANDT"; table = some "ZVBRP" }

abbrev pub query : Query
query = record {
  tables = from_zvbrp ∷ [];
  columns = mandt_ref ∷ [];
  condition = mandt_ref ∷ [];
  limit_to = none;
}

abbrev pub condition_of : Query → Query
condition_of q = record q { columns = q.condition; tables = [] }

abbrev pub sql : String
sql = "SELECT MANDT FROM SH.ZVBRP WHERE MANDT = '100';"

abbrev pub parser : Parser
parser = record {
  Expression = Query;
  parse = λ text.
      if str_eq text "SELECT MANDT FROM SH.ZVBRP WHERE MANDT = '100'"
      then statements (some query ∷ [])
      else if str_eq text "SELECT 'open"
      then token_error
      else parse_error;
  is_query = λ q. true;
  is_write = λ q. false;
  walk = λ q. q ∷ [];
  tables_of = λ q. q.tables;
  columns_of = λ q. q.columns;
  joins_of = λ q. [];
  on_of = λ q. none;
  equalities_of = λ q. [];
  qualify = λ schema q. some q;
  scopes_of = λ q. (some (condition_of q), [], q.tables) ∷ [];
  limit_of = λ q. q.limit_to;
  set_limit = λ n q. record q { limit_to = some n };
  print = λ q. "SELECT";
  limit_of-set_limit = λ n q. refl;
}

abbrev pub guards : Guards
guards = record {
  model = dictionary;
  max_rows = 1000;
  schema = ("SH", ("ZVBRP", ("MANDT", string) ∷ ("NAME1", string) ∷ []) ∷ []) ∷ [];
  allowed = "SH.ZVBRP" ∷ [];
  masked = "SH.ZVBRP.NAME1" ∷ [];
  declared = [];
}

load-guards_example : is_some (guards_of dictionary 1000) ≡ true
load-guards_example = load-guards (directory ∷ []) dictionary 1000 dictionary_loads

guards_built : guards_of dictionary 1000 ≡ some guards
unfolding guards_of
guards_built = refl

-- The text of the query without its semicolon, checked.
abbrev accepted : Verdict
accepted = verdict_of parser guards query query

check_accepts : check parser guards sql ≡ some accepted
unfolding check read_only allowlist occurs_in upper is_in masking_ok used_columns sorted_set
    joins_ok default_filters lacking
check_accepts = refl

accepted_ok : accepted.ok ≡ true
unfolding occurs_in upper is_in masking_ok used_columns sorted_set joins_ok default_filters lacking
accepted_ok = refl

check_raises : check parser guards "SELECT 'open" ≡ none
unfolding check read_only
check_raises = refl

check-Accepted_example : Accepted parser guards sql accepted
check-Accepted_example = check-Accepted parser guards sql accepted check_accepts accepted_ok
