-- ===== src/Tests/Server.antt =====
-- Requests to the server at a concrete store.
use test_analyst_agent.Common.{◌≡◌, refl, none, some, List, [], ◌∷◌}
use test_analyst_agent.Store.Rows.{Store}
use test_analyst_agent.Tools.Replies.{Query}
use test_analyst_agent.System.{step}
use test_analyst_agent.Server
use test_analyst_agent.Server.{Gateway, Around, serve, identity, call_by}
use test_analyst_agent.Server.Owned.{Owned, serve-Owned}
use test_analyst_agent.Samples.{sample_store, service, proposing, executing, morning}

abbrev gateway : Gateway
gateway = record { headers = ("X-Analyst-Id", "anna") ∷ []; default_analyst = none }

abbrev around : Around
around = record { proposing = proposing; executing = executing; now = morning; as_of = none }

refuses_nobody :
    serve service
      (record { headers = ("X-Analyst-Id", "") ∷ []; default_analyst = none })
      around
      (Server.execute_query "prop_3")
      sample_store
    ≡ none
unfolding serve
refuses_nobody = refl

names_anna : identity gateway ≡ some ("anna", none)
unfolding identity
names_anna = refl

abbrev after_run : Store × List Query
after_run =
    step service (call_by around ("anna", none) (Server.execute_query "prop_3")) sample_store

takes_request :
    serve service gateway around (Server.execute_query "prop_3") sample_store ≡ some after_run
unfolding serve
takes_request = refl

serve-Owned_example : Owned service gateway sample_store after_run
serve-Owned_example =
    serve-Owned service gateway around (Server.execute_query "prop_3") sample_store after_run
      takes_request
