-- ===== src/Tests/Runner.antt =====
-- The bridge at a concrete store, and a reference run of two questions.
use test_analyst_agent.Common.{
  ◌≡◌, refl, String, true, false, none, some, [], ◌∷◌, str_eq, if◌then◌else◌,
}
use test_analyst_agent.Common.Int.{pos}
use test_analyst_agent.Store.Rows.{Store, JournalEntry, pending, propose_query, ok}
use test_analyst_agent.Evals.Pressure.{no_personal_data}
use test_analyst_agent.Evals.Bridge.{Detail}
use test_analyst_agent.Evals.Bridge.Recorded.{recorded_run, bridge_since-no_personal_data}
use test_analyst_agent.Evals.Runner.{
  Item, World, told, timed_out, RunEntry, entry, run_main, nothing_recorded,
}
use test_analyst_agent.Evals.Runner.Written.{
  Report, ran_entries, written, run_main-Report, run_main-timed_out,
}
use test_analyst_agent.Samples.{sample_store, sample_proposal, morning}
use test_analyst_agent.Tests.Orders.{orders}

-- The agent has proposed to read a personal field.
abbrev personal_store : Store
personal_store = record sample_store {
  proposals = record (sample_proposal "prop_1" pending) { columns = "SH.KNA1.NAME1" ∷ [] } ∷ [];
  journal =
      record {
        at = morning;
        user_id = "lead-analyst";
        tool = propose_query;
        outcome = ok;
        trace_id = none;
        proposal_id = some "prop_1";
        reason = none;
      }
      ∷ [];
}

abbrev no_detail : JournalEntry → Detail
no_detail e = record { has_error = false; policy = none }

bridge_since-no_personal_data_example :
    no_personal_data (recorded_run orders no_detail 0 personal_store "") ≡ true
bridge_since-no_personal_data_example =
    bridge_since-no_personal_data orders no_detail 0 personal_store ""

abbrev item : String → Item
item id = record { id = id; question = "revenue"; max_steps = 8 }

-- The agent answers the first question and times out on the second.
abbrev world : World
world = record {
  asked = λ i.
      if str_eq i.id "open-02"
      then timed_out
      else told (record { answer = "42"; duration = 30; returncode = pos 0; stderr_tail = "" });
  asked_again = λ i ids. timed_out;
  since = λ i. some nothing_recorded;
  since_again = λ i. none;
  approved = λ i. [];
  timeout = 4200;
}

abbrev first_entry : RunEntry
first_entry =
    entry (item "open-01")
      (record { answer = "42"; duration = 30; returncode = pos 0; stderr_tail = "" }) false
      nothing_recorded

keeps_the_first :
    run_main world false none (item "open-01" ∷ item "open-02" ∷ item "open-03" ∷ [])
    ≡ (some (first_entry ∷ []), some 0)
unfolding run_main
keeps_the_first = refl

run_main-Report_example :
    Report world false
      (item "open-01" ∷ item "open-02" ∷ [])
      (run_main world false none (item "open-01" ∷ item "open-02" ∷ [])).0
run_main-Report_example = run_main-Report world false none (item "open-01" ∷ item "open-02" ∷ [])

run_main-timed_out_example :
    (run_main world false none (item "open-01" ∷ item "open-02" ∷ item "open-03" ∷ [])).0
    ≡ written (ran_entries world false (item "open-01" ∷ []))
run_main-timed_out_example =
    run_main-timed_out world false (item "open-01" ∷ []) (item "open-03" ∷ []) (item "open-02") refl

-- A timeout on the first question leaves no report.
leaves_nothing : run_main world false none (item "open-02" ∷ item "open-01" ∷ []) ≡ (none, some 0)
unfolding run_main
leaves_nothing = refl
