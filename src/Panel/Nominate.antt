-- ===== src/Panel/Nominate.antt =====
-- control_panel/src/sap_agent_panel/reference.py, `nominate`, and the handler `candidate` of app.py. The
-- directory of the candidates is a dictionary by the file's name; the texts of a draft that are the
-- same for all are left out.
use test_analyst_agent.Common.{
  ℕ, String, Bool, true, false, ◌&&◌, ◌||◌, Option, none, some, List, leb, ◌==◌, lower, strip_chars,
  first_letters, put, str_eq, if◌then◌else◌,
}
use Prim.Native.String.{◌∷◌ as cons, [] as empty, ◌++◌ as str_append}
use Prim.Native.Char.{Char, char, code}
use test_analyst_agent.Store.Rows.{Store, Proposal, nominated}
use test_analyst_agent.Store.Journal.{write}
use test_analyst_agent.Store.Proposals.{get_proposal}
use test_analyst_agent.Panel.{
  Session, signed_in, panel_entry, Response, to_login, redirect, missing,
}

pub record Candidate : Type 0 where
  pub id : String
  pub question : String
  pub asked_by : String
  pub gold_sql : String
  -- of the notes: who proposed it, who approved it, who nominated it, and the day
  pub approver : String
  pub nominated_by : String
  pub day : String

abbrev pub Candidates : Type 0
Candidates = List (String × Candidate)

abbrev pub dash : Char
dash = char 45 tt

abbrev is_plain : ℕ → Bool
is_plain c = (leb 97 c && leb c 122) || (leb 48 c && leb c 57)

-- re.sub(r"[^a-z0-9]+", "-", text), in a run of other characters or not
abbrev dashed : Bool → String → String
dashed inside empty = empty
dashed inside (cons c s) =
    let kept = dashed false s in
    let skipped = dashed true s in
    if is_plain (code c) then cons c kept else if inside then skipped else cons dash skipped

abbrev or_question : String → String
or_question text = if str_eq text "" then "question" else text

unfoldable pub slug : String → String
unfolding lower strip_chars
slug question =
    or_question (strip_chars (λ c. c == 45) (first_letters 40 (dashed false (lower question))))

abbrev pub candidate_path : Proposal → String
candidate_path p = str_append p.id (str_append "-" (str_append (slug p.question) ".yaml"))

-- `decided_by or 'политика'`
abbrev pub approver_of : Option String → String
approver_of none = "политика"
approver_of (some by) = if str_eq by "" then "политика" else by

abbrev pub draft : Proposal → String → String → Candidate
draft p by day = record {
  id = str_append "candidate-" p.id;
  question = p.question;
  asked_by = p.user_id;
  gold_sql = p.sql;
  approver = approver_of p.decided_by;
  nominated_by = by;
  day = day;
}

-- nominate
unfoldable pub nominate : Proposal → String → String → Candidates → Candidates
unfolding slug put
nominate p by day files = put (candidate_path p) (draft p by day) files

abbrev pub nominate_row :
    String
    → String
    → ℕ
    → String
    → Store
    → Candidates
    → Option Proposal
    → (Store × Candidates) × Response
nominate_row id by now day s files none = ((s, files), missing)
nominate_row id by now day s files (some p) =
    ((write (panel_entry nominated by id now) s, nominate p by day files), redirect)

-- candidate
unfoldable pub candidate :
    Session → String → String → ℕ → String → Store → Candidates → (Store × Candidates) × Response
unfolding signed_in write get_proposal nominate
candidate r id by now day s files =
    if signed_in r
    then nominate_row id by now day s files (get_proposal id s)
    else ((s, files), to_login)
