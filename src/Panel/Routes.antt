-- ===== src/Panel/Routes.antt =====
-- create_app of control_panel/src/sap_agent_panel/app.py: every route of the panel, and load_questions
-- and last_report of reference.py. A page is what its template is given; the form for the password is
-- given nothing. The files of the questions come parsed, the reports by their names in order.
pub mod Closed
use test_analyst_agent.Common.{
  ℕ, String, Bool, true, false, ◌&&◌, Option, none, some, List, [], ◌∷◌, ◌++◌, map, all, codes, ltb,
  str_eq, if◌then◌else◌, OrderBy,
}
use test_analyst_agent.Common.Int.{ℤ}
use test_analyst_agent.Store.Rows.{Store, Proposal, Result, JournalEntry, RateState}
use test_analyst_agent.Store.Proposals.{get_proposal}
use test_analyst_agent.Store.Settings.{setting}
use test_analyst_agent.Store.Queries
use test_analyst_agent.Store.Queries.{result_for, rate_states}
use test_analyst_agent.Panel.{
  Session, Response, signed_in, to_login, missing, approve, reject, amend_proposal, grant,
  set_policy,
}
use test_analyst_agent.Panel.Nominate.{Candidates, candidate}

-- The keys of a question's file that the screen reads.
pub record QuestionFile : Type 0 where
  pub id : String
  pub question : String
  pub difficulty : String
  pub kind : String

pub record Listed : Type 0 where
  pub file : QuestionFile
  pub subset : String
  pub hidden : Bool

abbrev listed : String → Bool → QuestionFile → Listed
listed subset hidden file = record { file = file; subset = subset; hidden = hidden }

-- load_questions
abbrev pub load_questions : List QuestionFile → List QuestionFile → List Listed
load_questions open_files sealed_files =
    map (listed "open" false) open_files ++ map (listed "sealed" true) sealed_files

-- last_report: reports[-1]
abbrev pub last_report : List String → Option String
last_report [] = none
last_report (name ∷ []) = some name
last_report (name ∷ other ∷ rest) = last_report (other ∷ rest)

pub record Repository : Type 0 where
  pub open_files : List QuestionFile
  pub sealed_files : List QuestionFile
  pub reports : List String

pub data Page : Type 0 where
  login_form : Page
  queue_page queue_list : List Proposal → Page
  history_page : List (Proposal × Option Result) → Page
  proposal_page : Proposal → Option Result → List JournalEntry → Page
  limits_page : List RateState → String → String → String → Page
  evals_page : List Listed → Option String → List Proposal → Page

pub data Reply : Type 0 where
  acts : Response → Reply
  shows : Page → Reply
  gives_cookie : String → Reply
  drops_cookie wrong_password : Reply

-- A request by its route, with its form.
pub data Request : Type 0 where
  get_login post_logout get_queue get_queue_rows get_history get_limits get_evals : Request
  post_login : String → Request
  post_approve post_reject : String → String → String → Request
  post_amend : String → String → String → String → Request
  get_one : String → Request
  post_grant : String → ℤ → String → Request
  post_policy : String → String → String → String → Request
  post_candidate : String → String → Request

-- What a request meets: the clock, the day in words, and the id of a new proposal.
pub record Meeting : Type 0 where
  pub now : ℕ
  pub day : String
  pub new_id : String

pub record Panel : Type 0 where
  pub password : String
  pub secret : String
  pub repository : Repository

abbrev pub State : Type 0
State = Store × Candidates

abbrev pub is_ascii : String → Bool
is_ascii text = all (λ c. ltb c 128) (codes text)

-- secrets.compare_digest, which raises a TypeError for a text that is not ASCII
abbrev pub compare_digest : String → String → Option Bool
compare_digest a b = if is_ascii a && is_ascii b then some (str_eq a b) else none

abbrev login_reply : String → Option Bool → Reply
login_reply secret none = acts Response.server_error
login_reply secret (some true) = gives_cookie secret
login_reply secret (some false) = wrong_password

unfoldable pub login : Panel → String → Reply
login app password = login_reply app.secret (compare_digest password app.password)

abbrev pub keep_files : Candidates → Store × Response → State × Reply
keep_files files (s, r) = ((s, files), acts r)

abbrev pub as_reply : State × Response → State × Reply
as_reply (state, r) = (state, acts r)

abbrev pub guarded : Session → State → Page → State × Reply
guarded r state page = if signed_in r then (state, shows page) else (state, acts to_login)

module _ (orders : (A : Type 0) → OrderBy A) where
  abbrev with_results : Store → List Proposal → List (Proposal × Option Result)
  with_results s proposals = map (λ (p : Proposal). (p, result_for orders p.id s)) proposals

  abbrev one_page : State → String → Option Proposal → State × Reply
  one_page (s, files) id none = ((s, files), acts missing)
  one_page (s, files) id (some p) = (
    (s, files),
    shows (proposal_page p (result_for orders id s) (Queries.journal orders 200 (some id) s)),
  )

  abbrev pub one : Session → String → State → State × Reply
  one r id (s, files) =
      if signed_in r
      then one_page (s, files) id (get_proposal id s)
      else ((s, files), acts to_login)

  abbrev pub limits_of : Store → Page
  limits_of s =
      limits_page (rate_states orders s) (setting "auto_execute" "on" s)
        (setting "auto_max_rows" "200" s) (setting "auto_max_tables" "3" s)

  abbrev pub evals_of : Repository → Store → Page
  evals_of repo s =
      evals_page (load_questions repo.open_files repo.sealed_files) (last_report repo.reports)
        (Queries.history orders 200 none s)

  -- A request with its cookie: the state that it leaves, and the reply.
  unfoldable pub handle : Panel → Meeting → Option String → Request → State → State × Reply
  unfolding signed_in approve reject amend_proposal grant set_policy candidate get_proposal setting
      login Queries.pending Queries.history result_for Queries.journal rate_states
  handle app meeting cookie request (s, files) =
      let r : Session = record { cookie = cookie; secret = app.secret } in
      elim request [
        | get_login ↦ ((s, files), shows login_form)
        | post_login password ↦ ((s, files), login app password)
        | post_logout ↦ ((s, files), drops_cookie)
        | get_queue ↦ guarded r (s, files) (queue_page (Queries.pending orders 50 s))
        | get_queue_rows ↦ guarded r (s, files) (queue_list (Queries.pending orders 50 s))
        | post_approve id by note ↦ keep_files files (approve r id by note meeting.now s)
        | post_reject id by note ↦ keep_files files (reject r id by note meeting.now s)
        | post_amend id sql by note ↦
            keep_files files (amend_proposal r id meeting.new_id sql by note meeting.now s)
        | get_history ↦
            guarded r (s, files) (history_page (with_results s (Queries.history orders 100 none s)))
        | get_one id ↦ one r id (s, files)
        | get_limits ↦ guarded r (s, files) (limits_of s)
        | post_grant user extra reason ↦ keep_files files (grant r user extra reason meeting.now s)
        | post_policy key value by reason ↦
            keep_files files (set_policy r key value by reason meeting.now s)
        | get_evals ↦ guarded r (s, files) (evals_of app.repository s)
        | post_candidate id by ↦ as_reply (candidate r id by meeting.now meeting.day s files)
      ]
