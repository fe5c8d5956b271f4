-- ===== src/Samples.antt =====
-- Concrete data for the tests: the default limits of config.py, a store with three proposals, a
-- panel session and a small result.
use test_analyst_agent.Common.{ℕ, ◌-◌, ◌*◌, ◌/◌, String, true, false, none, some, [], ◌∷◌}
use test_analyst_agent.Common.Int.{pos, negsuc, pos_part, ◌+ℤ◌}
use test_analyst_agent.Store.Rows.{
  Store, Proposal, ProposalStatus, pending, approved, auto, number, moment, passed,
}
use test_analyst_agent.Store.Limits.{Floats}
use test_analyst_agent.Database.{Rows, answered}
use test_analyst_agent.Guards.Verdict.{Verdict}
use test_analyst_agent.Tools.Replies.{Limits}
use test_analyst_agent.Tools.Propose
use test_analyst_agent.Tools.Propose.{Proposing, Asked}
use test_analyst_agent.Tools.Execute.{Executing, Wanted}
use test_analyst_agent.Semantic.Loader.{nothing}
use test_analyst_agent.Panel.{Session}
use test_analyst_agent.System.{Service}

-- Floats in steps of a sixty-millionth.
abbrev pub sixty_million : Floats
sixty_million = record {
  one = pos 60000000;
  of_int = λ n. pos (n * 60000000);
  add_times = λ a b c. a +ℤ pos (pos_part b * pos_part c / 60000000);
  less_one = λ a. a +ℤ negsuc 59999999;
  minutes = λ n. pos n;
  wait = λ a b. some (pos ((60000000 - pos_part a) * 60 / pos_part b));
}

abbrev pub default_limits : Limits
default_limits = record {
  rate = record {
    floats = sixty_million;
    refill_per_minute = pos 60000000;
    bucket_size = 5;
    daily_cap = 100;
  };
  max_concurrent_per_user = 2;
  max_concurrent_total = 6;
  max_rows = 1000;
  query_timeout_seconds = 30;
  auto_max_rows = 200;
  auto_max_tables = 3;
}

abbrev pub sample_proposal : String → ProposalStatus → Proposal
sample_proposal id status = record {
  id = id;
  created_at = 1000;
  user_id = "anna";
  trace_id = none;
  question = "revenue by quarter";
  sql = "SELECT 1";
  status = status;
  checks = record { check_id = "read-only"; status = passed } ∷ [];
  tables = "SH.ZVBRP" ∷ [];
  columns = [];
  row_limit = some 5;
  limit_imposed = false;
  estimated_rows = some 4;
  plan = [];
  data_as_of = some "2026-09-01";
  decided_at = none;
  decided_by = none;
  decision_note = none;
  supersedes = none;
}

abbrev pub sample_store : Store
sample_store = record {
  proposals =
      sample_proposal "prop_1" pending
      ∷ sample_proposal "prop_2" auto
      ∷ sample_proposal "prop_3" approved
      ∷ [];
  results = [];
  journal = [];
  settings = [];
  rate_states = [];
}

-- 2026-09-04 10:00 UTC
abbrev pub morning : ℕ
morning = 1788516000000000

abbrev pub sample_rows : Rows
sample_rows = record {
  columns = "QUARTER" ∷ "REVENUE" ∷ [];
  rows =
      (moment "2021-01-01" ∷ number (pos 100) ∷ [])
      ∷ (moment "2021-04-01" ∷ number (negsuc 4) ∷ [])
      ∷ [];
  row_count = 2;
  truncated = false;
  duration_ms = 12;
}

abbrev pub executing : Executing
executing = record {
  now = morning;
  finished_at = 1788516002000000;
  as_of = some "2026-09-01";
  as_of_after = some "2026-09-01";
  answer = λ sql rows seconds. answered sample_rows;
  result_id = "res_1";
}

abbrev pub wants : String → Wanted
wants id = record { proposal_id = id; user = "anna"; trace = none }

abbrev pub panel_session : Session
panel_session = record { cookie = some "s3cret"; secret = "s3cret" }

abbrev pub sample_verdict : Verdict
sample_verdict = record {
  ok = true;
  checks = record { check_id = "read-only"; status = passed } ∷ [];
  sql = "SELECT 1";
  tables = "SH.ZVBRP" ∷ [];
  columns = [];
  row_limit = some 5;
  limit_added = false;
}

abbrev pub service : Service
service = record { limits = default_limits; guards = λ sql. some sample_verdict; model = nothing }

abbrev pub proposing : Proposing
proposing = record {
  now = morning;
  new_id = "prop_9";
  as_of = some "2026-09-01";
  plan = λ sql. Propose.planned (record { lines = []; estimated_rows = some 4 });
}

abbrev pub asked : Asked
asked = record { question = "revenue"; sql = "SELECT 1"; user = "anna"; trace = none }
