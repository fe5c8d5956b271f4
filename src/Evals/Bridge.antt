-- ===== src/Evals/Bridge.antt =====
-- evals/tools/eval_bridge.py: what a reference run is told of the store, and how it approves. The JSON
-- texts are what they hold. Of the journal's `detail`, which the store's model leaves out, the two keys
-- that grade_reference.py reads come as an argument.
pub mod Recorded
pub mod Approves
use test_analyst_agent.Common.{
  ℕ, String, Bool, Option, none, some, List, [], ◌∷◌, map, keep, leb, str_eq, is_in, OrderBy,
}
use test_analyst_agent.Store.Rows
use test_analyst_agent.Store.Rows.{
  Store, Proposal, ProposalStatus, Result, JournalEntry, Tool, Event, Outcome, done, raised,
  approved, approved_by,
}
use test_analyst_agent.Store.Journal.{write}
use test_analyst_agent.Store.Proposals.{decide}
use test_analyst_agent.Store.Queries
use test_analyst_agent.Store.Queries.{created_at}
use test_analyst_agent.Panel.{panel_entry}
use test_analyst_agent.Evals.Grade.{Line, FiledProposal}

-- ProposalStatus, by its values
abbrev pub status_text : ProposalStatus → String
status_text Rows.pending = "pending"
status_text Rows.approved = "approved"
status_text Rows.auto = "auto"
status_text Rows.rejected = "rejected"
status_text Rows.executed = "executed"
status_text Rows.superseded = "superseded"
status_text Rows.blocked = "blocked"

abbrev pub tool_text : Tool → String
tool_text Rows.describe_schema = "describe_schema"
tool_text Rows.propose_query = "propose_query"
tool_text Rows.execute_query = "execute_query"
tool_text Rows.sanity_check = "sanity_check"
tool_text Rows.panel = "panel"
tool_text Rows.limits = "limits"
tool_text Rows.policy = "policy"

abbrev pub event_text : Event → String
event_text Rows.ok = "ok"
event_text Rows.not_found = "not_found"
event_text Rows.blocked_by_guards = "blocked"
event_text Rows.explain_failed = "explain_failed"
event_text Rows.rate_limited = "rate_limited"
event_text Rows.forbidden = "forbidden"
event_text Rows.stale_proposal = "stale_proposal"
event_text Rows.started = "started"
event_text Rows.finished = "finished"
event_text Rows.changed = "changed"
event_text Rows.granted = "granted"
event_text Rows.approved_by = "approved"
event_text Rows.rejected_by = "rejected"
event_text Rows.amended = "amended"
event_text Rows.nominated = "nominated"
event_text Rows.level_ok = "ok"
event_text Rows.level_attention = "attention"
event_text Rows.level_stop = "stop"

-- "error" in detail, detail.get("policy")
pub record Detail : Type 0 where
  pub has_error : Bool
  pub policy : Option String

-- A proposal that waits, as `pending` lists it.
pub record Waiting : Type 0 where
  pub id : String
  pub user_id : String
  pub question : String

abbrev waiting_of : Proposal → Waiting
waiting_of p = record { id = p.id; user_id = p.user_id; question = p.question }

abbrev pub line_of : (JournalEntry → Detail) → JournalEntry → Line
line_of detail e = record {
  user_id = e.user_id;
  tool = tool_text e.tool;
  outcome = event_text e.outcome;
  proposal_id = e.proposal_id;
  has_error = (detail e).has_error;
  policy = (detail e).policy;
}

-- The payload has no key `columns`, and calls_of of grade_reference.py reads an empty list for it.
abbrev pub filed_of : Proposal → FiledProposal
filed_of p = record {
  id = p.id;
  status = status_text p.status;
  columns = [];
  data_as_of = p.data_as_of;
}

pub record Recording : Type 0 where
  pub journal : List Line
  pub proposals : List FiledProposal
  pub results : List Result

-- args.user is None or p.user_id == args.user
abbrev is_asked : Option String → Proposal → Bool
is_asked none p = Bool.true
is_asked (some user) p = str_eq p.user_id user

abbrev proposal_ids : List Proposal → List String
proposal_ids ps = map (λ (p : Proposal). p.id) ps

abbrev pub after_approval : String → ℕ → Outcome (Store × Proposal) → Outcome (Store × Proposal)
after_approval by now (raised e) = raised e
after_approval by now (done (s', p)) = done (write (panel_entry approved_by by p.id now) s', p)

abbrev pub approval_note : String
approval_note = "автоподтверждение эталонного прогона"

-- `approve`: no session is asked for
unfoldable pub bridge_approve : String → String → ℕ → Store → Outcome (Store × Proposal)
unfolding decide write
bridge_approve id by now s = after_approval by now (decide id approved by approval_note now s)

module _ (orders : (A : Type 0) → OrderBy A) where
  -- `pending`
  unfoldable pub bridge_pending : Option String → Store → List Waiting
  unfolding Queries.pending
  bridge_pending user s = map waiting_of (keep (is_asked user) (Queries.pending orders 50 s))

  abbrev pub proposals_since : ℕ → Store → List Proposal
  proposals_since moment s =
      (orders Proposal).asc created_at
        (keep (λ (p : Proposal). leb moment p.created_at) s.proposals)

  abbrev pub journal_since : ℕ → Store → List JournalEntry
  journal_since moment s =
      (orders JournalEntry).asc (λ (e : JournalEntry). e.at)
        (keep (λ (e : JournalEntry). leb moment e.at) s.journal)

  -- `since`
  unfoldable pub bridge_since : (JournalEntry → Detail) → ℕ → Store → Recording
  unfolding is_in
  bridge_since detail moment s =
      let proposals = proposals_since moment s in
      record {
        journal = map (line_of detail) (journal_since moment s);
        proposals = map filed_of proposals;
        results = keep (λ (r : Result). is_in r.proposal_id (proposal_ids proposals)) s.results;
      }
