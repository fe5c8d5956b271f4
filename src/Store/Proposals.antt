-- ===== src/Store/Proposals.antt =====
-- The proposals of mcp_server/src/sap_agent_mcp/store.py: add_proposal, get_proposal, decide,
-- amend, claim_for_execution, add_result, get_result. The clock's reading and a new id are
-- arguments.
pub mod Changes
pub mod Moves
pub mod Lives
pub mod Calls
use test_analyst_agent.Common.{
  ℕ, String, true, not, Option, none, some, [], ◌∷◌, ◌++◌, str_eq, find, update, if◌then◌else◌,
  is_some,
}
use test_analyst_agent.Store.Rows.{
  Store, Proposal, ProposalStatus, pending, superseded, executed, is_pending, can_run, Result,
  Outcome, done, raised, key_error, value_error, permission_error, integrity_error,
}

abbrev pub proposal_key : Proposal → String
proposal_key p = p.id

abbrev pub result_key : Result → String
result_key r = r.id

unfoldable pub get_proposal : String → Store → Option Proposal
get_proposal id s = find proposal_key id s.proposals

-- A second row under one primary key is an IntegrityError.
unfoldable pub add_proposal : Proposal → Store → Outcome (Store × Proposal)
unfolding get_proposal
add_proposal p s =
    if is_some (get_proposal p.id s)
    then raised integrity_error
    else done (record s { proposals = s.proposals ++ p ∷ [] }, p)

unfoldable pub get_result : String → Store → Option Result
get_result id s = find result_key id s.results

-- The foreign key is enforced too: PRAGMA foreign_keys=ON.
unfoldable pub add_result : Result → Store → Outcome (Store × Result)
unfolding get_result get_proposal
add_result r s =
    if is_some (get_result r.id s)
    then raised integrity_error
    else if is_some (get_proposal r.proposal_id s)
    then done (record s { results = s.results ++ r ∷ [] }, r)
    else raised integrity_error

abbrev pub replace : Proposal → Store → Store
replace p s = record s { proposals = update proposal_key p.id (λ _. p) s.proposals }

abbrev pub decided : ProposalStatus → String → String → ℕ → Proposal → Proposal
decided status by note now p = record p {
  status = status;
  decided_at = some now;
  decided_by = some by;
  decision_note = some note;
}

abbrev pub decide_row :
    ProposalStatus → String → String → ℕ → Store → Option Proposal → Outcome (Store × Proposal)
decide_row status by note now s none = raised key_error
decide_row status by note now s (some p) =
    let p' = decided status by note now p in
    if is_pending p.status then done (replace p' s, p') else raised value_error

unfoldable pub decide :
    String → ProposalStatus → String → String → ℕ → Store → Outcome (Store × Proposal)
unfolding get_proposal
decide id status by note now s = decide_row status by note now s (get_proposal id s)

-- The analyst's edit. Nothing of the old row's plan or estimates is copied; `limit_imposed` has
-- its column default, 1.
abbrev pub fresh_proposal : String → String → ℕ → Proposal → Proposal
fresh_proposal new_id sql now old = record {
  id = new_id;
  created_at = now;
  user_id = old.user_id;
  trace_id = old.trace_id;
  question = old.question;
  sql = sql;
  status = pending;
  checks = [];
  tables = [];
  columns = [];
  row_limit = old.row_limit;
  limit_imposed = true;
  estimated_rows = none;
  plan = [];
  data_as_of = old.data_as_of;
  decided_at = none;
  decided_by = none;
  decision_note = none;
  supersedes = some old.id;
}

-- `note or "заменено правкой"`
abbrev pub amend_note : String → String
amend_note note = if str_eq note "" then "заменено правкой" else note

abbrev pub amend_row :
    String
    → String
    → String
    → String
    → ℕ
    → Store
    → Option Proposal
    → Outcome (Store × Proposal × Proposal)
amend_row new_id sql by note now s none = raised key_error
amend_row new_id sql by note now s (some old) =
    let fresh = fresh_proposal new_id sql now old in
    let old' = decided superseded by (amend_note note) now old in
    let s' = replace old' s in
    if not (is_pending old.status)
    then raised value_error
    else if is_some (find proposal_key new_id s.proposals)
    then raised integrity_error
    else done (record s' { proposals = s'.proposals ++ fresh ∷ [] }, old', fresh)

unfoldable pub amend :
    String → String → String → String → String → ℕ → Store → Outcome (Store × Proposal × Proposal)
unfolding get_proposal
amend id new_id sql by note now s = amend_row new_id sql by note now s (get_proposal id s)

abbrev pub claim_row : String → Store → Option Proposal → Outcome (Store × Proposal)
claim_row user s none = raised key_error
claim_row user s (some p) =
    let p' = record p { status = executed } in
    if not (str_eq p.user_id user)
    then raised permission_error
    else if can_run p.status
    then done (replace p' s, p')
    else raised value_error

unfoldable pub claim_for_execution : String → String → Store → Outcome (Store × Proposal)
unfolding get_proposal
claim_for_execution id user s = claim_row user s (get_proposal id s)
