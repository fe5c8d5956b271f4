-- ===== src/System/Vetted/Guarded.antt =====
-- The two processes with the guard rails of guards.py.
use test_analyst_agent.Common.{
  String, true, false, none, refl, str_eq, strip_statement, ◌≡◌, ◌∙◌, some, List, [], ◌∷◌, All, all,
}
use test_analyst_agent.Store.Rows.{Store}
use test_analyst_agent.Tools.Replies.{Limits, Query, exception}
use test_analyst_agent.Tools.Propose.{Proposing, Asked, propose_checked}
use test_analyst_agent.Guards.Parser.{Parser, token_error}
use test_analyst_agent.Guards.Checks.{Guards, read_only, raises}
use test_analyst_agent.Guards.Verdict.{Verdict}
use test_analyst_agent.Guards.Run.{check}
use test_analyst_agent.Guards.Run.Sound.{Accepted, check-Accepted}
use test_analyst_agent.System.{Service, Call, proposes, step, history}
use test_analyst_agent.System.Vetted.{Passed, AllVetted}
use test_analyst_agent.System.Vetted.{is_no_edit}
use test_analyst_agent.System.Vetted.Histories.{text_of, AllPassed, history-Passed}

module _ (P : Parser) (g : Guards) (l : Limits) where
  abbrev pub guarded : Service
  guarded = record { limits = l; guards = check P g; model = g.model }

  -- The print, with its row limit, of the statement of a text that the guard rails accept.
  pub record Clean (sql : String) : Type 0 where
    pub text : String
    pub verdict : Verdict
    pub checked : check P g text ≡ some verdict
    pub accepted : Accepted P g text verdict
    pub printed : sql ≡ P.print accepted.limited

  raises-read_only :
      (sql : String)
      → str_eq (strip_statement sql) "" ≡ false
      → P.parse (strip_statement sql) ≡ token_error
      → read_only P g sql ≡ raises
  unfolding read_only
  raises-read_only sql e h = rw (e, h) refl

  raises-check : (sql : String) → read_only P g sql ≡ raises → check P g sql ≡ none
  unfolding check
  raises-check sql e = rw e refl

  -- A text that is not blank and that the tokenizer of the SQL parser refuses with a TokenError, such as
  -- one with an open quotation mark: propose_query ends in an exception, nothing is filed as blocked,
  -- nothing is written to the journal, and nothing is sent to the database.
  pub propose-unreadable :
      (env : Proposing) (a : Asked) (s : Store)
      → str_eq (strip_statement a.sql) "" ≡ false
      → P.parse (strip_statement a.sql) ≡ token_error
      → (propose_checked l env a (guarded.guards a.sql) s
          ≡ record { store = s; queries = []; reply = exception })
        × (step guarded (proposes env a) s ≡ (s, []))
  unfolding step propose_checked
  propose-unreadable env a s e h =
      let raised = raises-check a.sql (raises-read_only a.sql e h) in
      (rw raised refl, rw raised refl)

  Passed-Clean : (sql : String) → Passed guarded sql → Clean sql
  Passed-Clean sql p =
      let accepted = check-Accepted P g p.text p.verdict p.checked p.ok in
      record {
        text = p.text;
        verdict = p.verdict;
        checked = p.checked;
        accepted = accepted;
        printed = p.printed ∙ accepted.printed;
      }

  AllPassed-Clean : (qs : List Query) → AllPassed guarded qs → All (λ q. Clean (text_of q)) qs
  AllPassed-Clean [] h = tt
  AllPassed-Clean (q ∷ qs) (p, ps) = (Passed-Clean (text_of q) p, AllPassed-Clean qs ps)

  -- In a history in which no analyst edits a text, from a store whose proposals are blocked or hold
  -- what the guard rails printed for a text that they passed: every statement that reaches the
  -- database, to be planned or to be run, is the print of the one query of an accepted text: of that
  -- very query, whose count of rows is within `max_rows`, or of that query with FETCH FIRST max_rows ROWS
  -- ONLY in the place of its limit. The query writes nothing, its tables are known, its columns resolve
  -- and none is masked, its joins are declared, and no table lacks a required filter. PERCENT and
  -- WITH TIES of a limit that is kept are not looked at.
  pub history-Clean :
      (cs : List Call) (s : Store)
      → all is_no_edit cs ≡ true
      → AllVetted guarded s
      → All (λ q. Clean (text_of q)) (history guarded cs s).1
  history-Clean cs s e h = AllPassed-Clean _ (history-Passed guarded cs s e h)
