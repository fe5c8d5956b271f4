-- ===== src/Tests/Limits.antt =====
-- The rate limits at concrete calls.
use test_analyst_agent.Common.{◌+◌, ◌≤◌, ◌≡◌, refl, [], ◌∷◌, arith, find, upsert, update}
use test_analyst_agent.Store.Rows.{empty}
use test_analyst_agent.Store.Limits.{take_token, take_row}
use test_analyst_agent.Store.Limits.Calls.{Calls, granted_to}
use test_analyst_agent.Store.Limits.DailyCap.{granted_to-le-left}
use test_analyst_agent.Samples.{default_limits, morning}

-- Seven requests in one minute by one analyst, one by another between them.
abbrev burst : Calls
burst =
    ("anna", morning)
    ∷ ("anna", morning + 1)
    ∷ ("boris", morning + 2)
    ∷ ("anna", morning + 3)
    ∷ ("anna", morning + 4)
    ∷ ("anna", morning + 5)
    ∷ ("anna", morning + 6)
    ∷ ("anna", morning + 60000005)
    ∷ []

granted_in_burst : granted_to default_limits.rate "anna" burst empty ≡ 6
unfolding granted_to take_token take_row find upsert update
granted_in_burst = refl

granted_to-le-left_example : granted_to default_limits.rate "anna" burst empty ≤ 100
unfolding find
granted_to-le-left_example =
    granted_to-le-left default_limits.rate "anna" 20700 burst empty (omega arith)
