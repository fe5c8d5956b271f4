-- ===== src/Panel.antt =====
-- control_panel/src/sap_agent_panel/app.py: the handlers of the analyst's panel that write to the
-- store. The other routes are in Routes.
pub mod Changes
pub mod Nominate
pub mod Routes
use test_analyst_agent.Common.{
  ℕ, String, Bool, false, ◌||◌, Option, none, some, str_eq, if◌then◌else◌,
}
use test_analyst_agent.Common.Int.{ℤ}
use test_analyst_agent.Store.Rows
use test_analyst_agent.Store.Rows.{
  Store, Proposal, ProposalStatus, approved, rejected, JournalEntry, Event, approved_by,
  rejected_by, amended, Outcome, done, raised,
}
use test_analyst_agent.Store.Journal.{write}
use test_analyst_agent.Store.Proposals.{decide, amend}
use test_analyst_agent.Store.Limits.{grant_bonus}
use test_analyst_agent.Store.Settings.{set_setting}

pub data Response : Type 0 where
  to_login redirect bad_request missing server_error : Response

-- The cookie of a request, the secret of the process, and the analyst that the form names.
pub record Session : Type 0 where
  pub cookie : Option String
  pub secret : String

unfoldable pub signed_in : Session → Bool
signed_in r = elim r.cookie [ none ↦ false | some c ↦ str_eq c r.secret ]

abbrev pub panel_entry : Event → String → String → ℕ → JournalEntry
panel_entry outcome by proposal_id now = record {
  at = now;
  user_id = by;
  tool = Rows.panel;
  outcome = outcome;
  trace_id = none;
  proposal_id = some proposal_id;
  reason = none;
}

-- The exceptions of `decide` and `amend` are not caught: the server answers 500.
abbrev pub after_decision :
    Event → String → String → ℕ → Store → Outcome (Store × Proposal) → Store × Response
after_decision outcome by id now s (raised e) = (s, server_error)
after_decision outcome by id now s (done (s', p)) =
    (write (panel_entry outcome by id now) s', redirect)

unfoldable pub approve : Session → String → String → String → ℕ → Store → Store × Response
unfolding signed_in write decide
approve r id by note now s =
    if signed_in r
    then after_decision approved_by by id now s (decide id approved by note now s)
    else (s, to_login)

unfoldable pub reject : Session → String → String → String → ℕ → Store → Store × Response
unfolding signed_in write decide
reject r id by note now s =
    if signed_in r
    then after_decision rejected_by by id now s (decide id rejected by note now s)
    else (s, to_login)

abbrev pub after_amend :
    String → ℕ → Store → Outcome (Store × Proposal × Proposal) → Store × Response
after_amend by now s (raised e) = (s, server_error)
after_amend by now s (done (s', old, fresh)) =
    (write (panel_entry amended by old.id now) s', redirect)

unfoldable pub amend_proposal :
    Session → String → String → String → String → String → ℕ → Store → Store × Response
unfolding signed_in write amend
amend_proposal r id new_id sql by note now s =
    if signed_in r then after_amend by now s (amend id new_id sql by note now s) else (s, to_login)

-- A ValueError is caught and becomes a 400.
abbrev after_write : Store → Outcome Store → Store × Response
after_write s (raised e) = (s, bad_request)
after_write s (done s') = (s', redirect)

unfoldable pub grant : Session → String → ℤ → String → ℕ → Store → Store × Response
unfolding signed_in grant_bonus
grant r user extra reason now s =
    if signed_in r then after_write s (grant_bonus user extra reason now s) else (s, to_login)

abbrev is_switch : String → Bool
is_switch key =
    str_eq key "auto_execute" || str_eq key "auto_max_rows" || str_eq key "auto_max_tables"

unfoldable pub set_policy :
    Session → String → String → String → String → ℕ → Store → Store × Response
unfolding signed_in set_setting
set_policy r key value by reason now s =
    if signed_in r
    then if is_switch key
      then after_write s (set_setting key value by reason now s)
      else (s, bad_request)
    else (s, to_login)
