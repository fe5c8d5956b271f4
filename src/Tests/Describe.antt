-- ===== src/Tests/Describe.antt =====
-- describe_schema over a small dictionary.
use test_analyst_agent.Common.{◌≡◌, refl, String, true, none, some, [], ◌∷◌, get, upper}
use test_analyst_agent.Semantic.Models.{SemanticModel, dotted}
use test_analyst_agent.Tools.Describe.{
  Dictionary, dictionary, not_in_dictionary, describe, column_view,
}
use test_analyst_agent.Tools.Describe.Answers.{is_answer, describe-answer}
use test_analyst_agent.Tools.Describe.Named.{Alone, describe-Alone}
use test_analyst_agent.Tests.Guards.{sales, billing, mandt, customer, directory, dictionary_loads}
use test_analyst_agent.Tests.Guards

abbrev shown : String → Dictionary
shown name = record {
  data_as_of = some "2026-09-01";
  tables =
      record {
        name = name;
        columns = column_view mandt ∷ column_view customer ∷ [];
        relations = [];
      }
      ∷ [];
  metrics = [];
}

describe-answer_example :
    is_answer (describe Guards.dictionary (some "2026-09-01") (some "sh.zvbrp")) ≡ true
describe-answer_example =
    describe-answer (directory ∷ []) Guards.dictionary (some "2026-09-01") (some "sh.zvbrp")
      dictionary_loads

describe-Alone_example :
    Alone Guards.dictionary "ZVBRP" billing
      (dotted "SH" "ZVBRP")
      (describe Guards.dictionary (some "2026-09-01") (some (dotted "SH" "ZVBRP")))
describe-Alone_example =
    describe-Alone (directory ∷ []) Guards.dictionary (some "2026-09-01") "ZVBRP" billing sales
      "sales" dictionary_loads (unfold get in refl) (unfold get in refl) (unfold get in refl)
      (unfold upper in refl)

shows_lower :
    describe Guards.dictionary (some "2026-09-01") (some "sh.zvbrp") ≡ dictionary (shown "SH.ZVBRP")
unfolding describe
shows_lower = refl

-- The same table in a domain of another schema: it is shown under a name that is not found.
abbrev warehouse : SemanticModel
warehouse = record Guards.dictionary {
  domains = ("sales", record { name = "sales"; db_schema = "EWM" }) ∷ [];
}

shows_warehouse : describe warehouse (some "2026-09-01") none ≡ dictionary (shown "EWM.ZVBRP")
unfolding describe
shows_warehouse = refl

loses_warehouse :
    describe warehouse (some "2026-09-01") (some "EWM.ZVBRP") ≡ not_in_dictionary ("ZVBRP" ∷ [])
unfolding describe
loses_warehouse = refl
