-- ===== src/Guards/Run.antt =====
-- Guards.check of mcp_server/src/sap_agent_mcp/guards.py: the checks in their order, and the verdict.
pub mod Sound
use test_analyst_agent.Common.{
  ℕ, String, Bool, true, false, not, ◌&&◌, Option, none, some, List, [], ◌∷◌, any, ltb,
  if◌then◌else◌, sorted_set,
}
use test_analyst_agent.Store.Rows.{Check, CheckStatus, passed, warning, failed}
use test_analyst_agent.Semantic.Models.{Column}
use test_analyst_agent.Guards.Verdict.{Verdict, is_failed}
use test_analyst_agent.Guards.Parser.{Parser}
use test_analyst_agent.Guards.Checks.{
  Guards, check_of, flag, given, limit_value, make_limit, read_only, allowlist, used_tables,
  used_columns, masking_ok, joins_ok, lacking, ReadOnly, reads, fails, raises,
}

abbrev pub is_required : Column → Bool
is_required c = given c.required_filter

abbrev pub is_expected : Column → Bool
is_expected c = not (given c.required_filter) && given c.default_filter

module _ (P : Parser) (g : Guards) where
  open P use {Expression, limit_of, set_limit, print}

  -- Guards._check_default_filters
  unfoldable pub default_filters : Expression → CheckStatus
  default_filters resolved =
      if lacking P g is_required resolved
      then failed
      else if lacking P g is_expected resolved
      then warning
      else passed

  pub record Limited : Type 0 where
    pub statement : Expression
    pub row_limit : ℕ
    pub added : Bool

  abbrev pub cut : Expression → Limited
  cut e = record {
    statement = set_limit (make_limit g.max_rows) e;
    row_limit = g.max_rows;
    added = true;
  }

  abbrev pub limited_at : Expression → Option ℕ → Limited
  limited_at e none = cut e
  limited_at e (some current) =
      if ltb g.max_rows current
      then cut e
      else record { statement = e; row_limit = current; added = false }

  -- Guards._check_row_limit: its check always passes
  unfoldable pub row_limit : Expression → Limited
  row_limit e = limited_at e (limit_value (limit_of e))

  abbrev refused_with : List Check → String → Verdict
  refused_with checks sql = record {
    ok = false;
    checks = checks;
    sql = sql;
    tables = [];
    columns = [];
    row_limit = none;
    limit_added = false;
  }

  abbrev pub all_checks : Expression → List Check
  all_checks resolved =
      check_of "read-only" passed
      ∷ check_of "allowlist" passed
      ∷ check_of "masking" (flag (masking_ok P g (used_columns P g resolved)))
      ∷ check_of "joins" (flag (joins_ok P g resolved))
      ∷ check_of "default-filters" (default_filters resolved)
      ∷ check_of "row-limit" passed
      ∷ []

  abbrev pub verdict_of : Expression → Expression → Verdict
  verdict_of statement resolved =
      let checks = all_checks resolved in
      let cut_to = row_limit statement in
      record {
        ok = not (any is_failed checks);
        checks = checks;
        sql = print cut_to.statement;
        tables = sorted_set (used_tables P g statement);
        columns = used_columns P g resolved;
        row_limit = some cut_to.row_limit;
        limit_added = cut_to.added;
      }

  abbrev pub with_resolved : String → Expression → Option Expression → Verdict
  with_resolved sql statement none =
      refused_with (check_of "read-only" passed ∷ check_of "allowlist" failed ∷ []) sql
  with_resolved sql statement (some resolved) = verdict_of statement resolved

  abbrev pub with_statement : String → ReadOnly Expression → Option Verdict
  with_statement sql fails = some (refused_with (check_of "read-only" failed ∷ []) sql)
  with_statement sql raises = none
  with_statement sql (reads statement) =
      some (with_resolved sql statement (allowlist P g statement))

  -- Guards.check; `none` is the TokenError of a text that the tokenizer cannot read
  unfoldable pub check : String → Option Verdict
  check sql = with_statement sql (read_only P g sql)
