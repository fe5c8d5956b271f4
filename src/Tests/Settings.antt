-- ===== src/Tests/Settings.antt =====
-- The settings of the server, the plan of a query and the masking of a trace at concrete inputs.
use test_analyst_agent.Common.{◌≡◌, ◌≤◌, refl, String, Option, some, [], ◌∷◌}
use test_analyst_agent.Common.Int.{pos}
use test_analyst_agent.Config
use test_analyst_agent.Config.{
  Environment, from_env, limits_of, paths_of, no_password, bad_number, failed,
}
use test_analyst_agent.Database.Explain.{
  PlanCursor, read, planned, refused, explain, statement, explains, reads_plan, clears_plan,
}
use test_analyst_agent.Tracing.{Value, text, list, scalar, item, no_items, mask, json_text}
use test_analyst_agent.Tracing.Small.{Small, text_length, mask-Small}

abbrev float : String → Option String
float written = some written

refuses_no_password : from_env float [] ≡ failed no_password
unfolding from_env
refuses_no_password = refl

refuses_word :
    from_env float (("ORACLE_APP_USER_PASSWORD", "p") ∷ ("LIMIT_MAX_ROWS", "many") ∷ [])
    ≡ failed bad_number
unfolding from_env
refuses_word = refl

splits_paths :
    paths_of "SEMANTIC_SOURCES" ("semantic/sap" ∷ []) (("SEMANTIC_SOURCES", " a ,,b") ∷ [])
    ≡ "a" ∷ "b" ∷ []
unfolding paths_of
splits_paths = refl

takes_defaults :
    limits_of float (("LIMIT_MAX_ROWS", " 50 ") ∷ ("LIMIT_DAILY_CAP", " ") ∷ [])
    ≡ Config.value (record {
      refill_per_minute = "1";
      bucket_size = pos 5;
      daily_cap = pos 100;
      max_concurrent_per_user = pos 2;
      max_concurrent_total = pos 6;
      max_rows = pos 50;
      query_timeout_seconds = pos 30;
      auto_max_rows = pos 200;
      auto_max_tables = pos 3;
    })
unfolding limits_of
takes_defaults = refl

abbrev plan_cursor : String → PlanCursor
plan_cursor sent = read (
    record { step = "SELECT STATEMENT"; cardinality = some 4; id = 0 }
    ∷ record { step = "  TABLE ACCESS FULL ZVBRP"; cardinality = some 9; id = 1 }
    ∷ [])

plans : explain "SELECT 1" "prop_1" plan_cursor ≡ (
  explains (statement "prop_1" "SELECT 1") ∷ reads_plan "prop_1" ∷ clears_plan "prop_1" ∷ [],
  planned (record {
    lines = "SELECT STATEMENT" ∷ "  TABLE ACCESS FULL ZVBRP" ∷ [];
    estimated_rows = some 4;
  }),
)
unfolding explain
plans = refl

refuses_quote : explain "SELECT 1" "x' FOR DROP" plan_cursor ≡ ([], refused)
unfolding explain
refuses_quote = refl

abbrev hide : String → String
hide written = written

abbrev value_text : Value → String
value_text v = ""

abbrev six : Value
six = list (
    item (scalar "1") (
      item (scalar "2")
        (item (scalar "3") (item (scalar "4") (item (text "five") (item (scalar "6") no_items))))))

mask-Small_example :
    Small (mask hide hide value_text six)
    × (text_length (json_text hide hide value_text six) ≤ 8000)
mask-Small_example = mask-Small hide hide value_text six

cuts_the_sixth :
    mask hide hide value_text six
    ≡ list (
        item
          (scalar "1")
          (item (scalar "2") (item (scalar "3") (item (scalar "4") (item (text "five") no_items)))))
unfolding mask
cuts_the_sixth = refl
