-- ===== src/Tests/Routes.antt =====
-- The routes of the panel at a concrete store.
use test_analyst_agent.Common.{◌≡◌, refl, some, [], ◌∷◌, find}
use test_analyst_agent.Store.Rows
use test_analyst_agent.Store.Rows.{blocked, nominated}
use test_analyst_agent.Store.Journal.{write}
use test_analyst_agent.Panel
use test_analyst_agent.Panel.{signed_in, redirect, panel_entry}
use test_analyst_agent.Panel.Nominate.{slug, candidate, draft}
use test_analyst_agent.Panel.Routes
use test_analyst_agent.Panel.Routes.{
  handle, post_approve, post_login, gives_cookie, wrong_password, acts, compare_digest, login,
}
use test_analyst_agent.Panel.Routes.Closed.{Closed, handle-Closed}
use test_analyst_agent.Samples.{sample_store, sample_proposal, panel_session, morning}
use test_analyst_agent.Tests.Orders.{orders}

abbrev panel : Routes.Panel
panel = record {
  password = "long word";
  secret = "s3cret";
  repository = record { open_files = []; sealed_files = []; reports = [] };
}

abbrev meeting : Routes.Meeting
meeting = record { now = morning; day = "2026-09-04"; new_id = "prop_9" }

handle-Closed_example :
    Closed panel
      (post_approve "prop_1" "anna" "")
      (sample_store, [])
      (handle orders panel meeting
        (some "guess")
        (post_approve "prop_1" "anna" "")
        (sample_store, []))
unfolding signed_in
handle-Closed_example =
    handle-Closed orders panel meeting (some "guess") (post_approve "prop_1" "anna" "")
      (sample_store, []) refl

lets_in : login panel "long word" ≡ gives_cookie "s3cret"
unfolding login
lets_in = refl

keeps_out : login panel "long wor" ≡ wrong_password
unfolding login
keeps_out = refl

-- A password in Russian letters is no wrong password: the comparison raises.
fails_on_letters : login panel "пароль" ≡ acts Panel.Response.server_error
unfolding login
fails_on_letters = refl

slug_example : slug "Revenue, by quarter?" ≡ "revenue-by-quarter"
unfolding slug
slug_example = refl

slug_of_russian : slug "Выручка" ≡ "question"
unfolding slug
slug_of_russian = refl

-- A proposal that the guard rails refused is nominated as a pair that the policy approved.
abbrev refused_store : Rows.Store
refused_store = record sample_store { proposals = sample_proposal "prop_1" blocked ∷ [] }

nominates_refused :
    candidate panel_session "prop_1" "lead" morning "2026-09-04" refused_store [] ≡ (
      (
        write (panel_entry nominated "lead" "prop_1" morning) refused_store,
        (
          "prop_1-revenue-by-quarter.yaml",
          draft (sample_proposal "prop_1" blocked) "lead" "2026-09-04",
        )
            ∷ [],
      ),
      redirect,
    )
unfolding candidate find
nominates_refused = refl
