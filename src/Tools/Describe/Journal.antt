-- ===== src/Tools/Describe/Journal.antt =====
-- describe_schema writes to the journal alone.
use test_analyst_agent.Common.{ℕ, String, Option, ◌≡◌, arith}
use test_analyst_agent.Store.Rows.{Store}
use test_analyst_agent.Semantic.Models.{SemanticModel}
use test_analyst_agent.Tools.Describe.{describe_schema}

pub describe_schema-rows :
    (m : SemanticModel) (as_of table : Option String) (user : String) (now : ℕ) (s : Store)
    → (describe_schema m as_of table user now s).0.proposals ≡ s.proposals
unfolding describe_schema
describe_schema-rows m as_of table user now s = ground arith

pub describe_schema-settings :
    (m : SemanticModel) (as_of table : Option String) (user : String) (now : ℕ) (s : Store)
    → (describe_schema m as_of table user now s).0.settings ≡ s.settings
unfolding describe_schema
describe_schema-settings m as_of table user now s = ground arith
