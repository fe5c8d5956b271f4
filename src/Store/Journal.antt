-- ===== src/Store/Journal.antt =====
-- Store.record and Store.running of mcp_server/src/sap_agent_mcp/store.py. The journal is kept in
-- the order of insertion.
use test_analyst_agent.Common.{
  ℕ, ◌-◌, ◌*◌, String, Bool, true, false, ◌&&◌, Option, none, some, [], ◌∷◌, ◌++◌, leb, str_eq,
  count,
}
use test_analyst_agent.Store.Rows.{
  Store, JournalEntry, Tool, Event, execute_query, started, finished,
}

unfoldable pub write : JournalEntry → Store → Store
write entry s = record s { journal = s.journal ++ entry ∷ [] }

abbrev pub is_execute_query : Tool → Bool
is_execute_query execute_query = true
is_execute_query _ = false

abbrev pub is_started : Event → Bool
is_started started = true
is_started _ = false

abbrev pub is_finished : Event → Bool
is_finished finished = true
is_finished _ = false

-- `user_id is not None` narrows the query to one analyst.
abbrev pub of_user : Option String → JournalEntry → Bool
of_user none e = true
of_user (some u) e = str_eq e.user_id u

-- A row of an execution, inside the window.
abbrev pub counts : Option String → ℕ → (Event → Bool) → JournalEntry → Bool
counts user since outcome e =
    is_execute_query e.tool && outcome e.outcome && leb since e.at && of_user user e

-- The window in seconds is the `window_seconds` of the method; moments are in microseconds.
unfoldable pub running : Option String → ℕ → ℕ → Store → ℕ
running user window_seconds now s =
    let since = now - window_seconds * 1000000 in
    count (counts user since is_started) s.journal - count (counts user since is_finished) s.journal
