-- ===== src/Tests/System.antt =====
-- A proposal through the guard rails to the database.
use test_analyst_agent.Common.{◌≡◌, refl, strip_statement, List, [], ◌∷◌, All, find}
use test_analyst_agent.Store.Rows.{Store}
use test_analyst_agent.Store.Proposals.{get_proposal}
use test_analyst_agent.Tools.Propose.{Asked, propose_checked}
use test_analyst_agent.Tools.Replies.{exception}
use test_analyst_agent.System.{Call, proposes, executes, step, history}
use test_analyst_agent.System.Vetted.{AllVetted}
use test_analyst_agent.System.Vetted.Histories.{text_of}
use test_analyst_agent.System.Vetted.Guarded.{guarded, Clean, history-Clean, propose-unreadable}
use test_analyst_agent.Samples.{default_limits, sample_store, executing, wants, proposing, asked}
use test_analyst_agent.Tests.Guards.{parser, guards, sql}

abbrev empty_store : Store
empty_store = record sample_store { proposals = [] }

abbrev asked_guarded : Asked
asked_guarded = record asked { sql = sql }

abbrev proposed_and_run : List Call
proposed_and_run = proposes proposing asked_guarded ∷ executes executing (wants "prop_9") ∷ []

empty-AllVetted : AllVetted (guarded parser guards default_limits) empty_store
unfolding get_proposal find
empty-AllVetted j = tt

history-Clean_example :
    All
      (λ q. Clean parser guards default_limits (text_of q))
      (history (guarded parser guards default_limits) proposed_and_run empty_store).1
history-Clean_example =
    history-Clean parser guards default_limits proposed_and_run empty_store refl empty-AllVetted

abbrev asked_open : Asked
asked_open = record asked { sql = "SELECT 'open" }

propose-unreadable_example :
    (propose_checked default_limits proposing asked_open
        ((guarded parser guards default_limits).guards asked_open.sql)
        empty_store
      ≡ record { store = empty_store; queries = []; reply = exception })
    × (step (guarded parser guards default_limits) (proposes proposing asked_open) empty_store
        ≡ (empty_store, []))
unfolding strip_statement
propose-unreadable_example =
    propose-unreadable parser guards default_limits proposing asked_open empty_store refl refl
