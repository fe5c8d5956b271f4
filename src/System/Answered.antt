-- ===== src/System/Answered.antt =====
-- What an analyst approves does run: the way from a pending proposal to the database.
use test_analyst_agent.Common.{
  ℕ, ◌-◌, String, true, false, ◌≡◌, refl, sym, ap, ◌∙◌, Option, none, some, [], ◌∷◌, ◌++◌, leb,
  arith, count-append, upsert, find, find-key, or_else,
}
use test_analyst_agent.Store.Rows.{
  Store, Proposal, is_pending, approved, approved_by, executed, Event, Outcome, done, raised,
  RateState,
}
use test_analyst_agent.Store.Journal.{write, running, counts, is_started, is_finished}
use test_analyst_agent.Store.Limits.{
  Allowance, allowed, cap_reached, too_often, take_token, take_row, state_of, new_state, save,
  rate_key,
}
use test_analyst_agent.Store.Proposals.{
  get_proposal, proposal_key, decided, replace, claim_for_execution,
}
use test_analyst_agent.Store.Proposals.Moves.{at_own_key}
use test_analyst_agent.Store.Proposals.Calls.{claim-returns, get-replace_self}
use test_analyst_agent.Tools.Replies.{Limits}
use test_analyst_agent.Tools.Execute.{Executing, Wanted, is_stale, run_of, execute_query, admit}
use test_analyst_agent.Tools.Execute.Effects.{perform-Leaves}
use test_analyst_agent.Panel.{Session, signed_in, panel_entry}
use test_analyst_agent.System.{Service, approves, executes, step, history}
use test_analyst_agent.System.Edits.{approve-returns}

-- A caller who has a token, finds both ceilings free and names a proposal that may run sends it.
execute-runs :
    (l : Limits) (env : Executing) (w : Wanted) (s s2 : Store) (p : Proposal)
    → take_token l.rate w.user env.now s ≡ done (s2, allowed)
    → leb l.max_concurrent_total (running none 300 env.now s2) ≡ false
    → leb l.max_concurrent_per_user (running (some w.user) 300 env.now s2) ≡ false
    → claim_for_execution w.proposal_id w.user s2 ≡ done (replace p s2, p)
    → is_stale p.data_as_of env.as_of ≡ false
    → (execute_query l env w s).queries ≡ run_of l p ∷ []
unfolding execute_query admit
execute-runs l env w s s2 p t a b c d =
    rw (t, a, b, c, d) (perform-Leaves l env w p (replace p s2)).1

abbrev charged : Store → RateState → Store
charged s st = record s { rate_states = upsert rate_key st s.rate_states }

save-allowed :
    (s s1 s2 : Store) (r : Outcome (RateState × Allowance))
    → save s r ≡ done (s2, allowed)
    → (st : RateState) × (save s1 r ≡ done (charged s1 st, allowed))
save-allowed s s1 s2 (raised e) h = absurd (ground arith)
save-allowed s s1 s2 (done (st, allowed)) h = (st, refl)
save-allowed s s1 s2 (done (st, cap_reached n c)) h = absurd (ground arith)
save-allowed s s1 s2 (done (st, too_often n)) h = absurd (ground arith)

-- The bucket's rows alone decide whether there is a token.
token-allowed :
    (l : Limits) (user : String) (now : ℕ) (s s1 s2 : Store)
    → s1.rate_states ≡ s.rate_states
    → take_token l.rate user now s ≡ done (s2, allowed)
    → (st : RateState) × (take_token l.rate user now s1 ≡ done (charged s1 st, allowed))
unfolding take_token
token-allowed l user now s s1 s2 e h =
    let (st, q) = save-allowed s s1 s2 (take_row l.rate now (state_of l.rate user now s)) h in
    let same : state_of l.rate user now s1 ≡ state_of l.rate user now s =
      ap (λ rows. or_else (find rate_key user rows) (new_state l.rate user now)) e in
    (st, ap (λ x. save s1 (take_row l.rate now x)) same ∙ q)

-- An entry of the panel is no execution that runs.
panel-running :
    (user : Option String) (now : ℕ) (outcome : Event) (by id : String) (at : ℕ) (s s' : Store)
    → s'.journal ≡ s.journal ++ panel_entry outcome by id at ∷ []
    → running user 300 now s' ≡ running user 300 now s
unfolding running
panel-running user now outcome by id at s s' e =
    rw
      (
        e,
        count-append (counts user (now - 300000000) is_started) s.journal
            (panel_entry outcome by id at ∷ []),
        count-append (counts user (now - 300000000) is_finished) s.journal
            (panel_entry outcome by id at ∷ []),
      )
      (omega arith)

module _ (v : Service) (r : Session) (env : Executing) (w : Wanted) (by note : String) (t : ℕ)
    (p : Proposal) (s s2 : Store) where
  abbrev after : Store
  after =
      write (panel_entry approved_by by w.proposal_id t) (replace (decided approved by note t p) s)

  abbrev outcome : Proposal
  outcome = decided approved by note t p

  abbrev claimed : Proposal
  claimed = record outcome { status = executed }

  after-rates : after.rate_states ≡ s.rate_states
  unfolding write
  after-rates = refl

  after-running :
      (st : RateState) (user : Option String)
      → running user 300 env.now (charged after st) ≡ running user 300 env.now s
  unfolding write
  after-running st user =
      panel-running user env.now approved_by by w.proposal_id t s (charged after st) refl

  after-found :
      (st : RateState)
      → get_proposal w.proposal_id s ≡ some p
      → get_proposal w.proposal_id (charged after st) ≡ some outcome
  unfolding write get_proposal
  after-found st there =
      let name : p.id ≡ w.proposal_id = find-key proposal_key w.proposal_id s.proposals p there in
      rw (← name) (get-replace_self p outcome s (at_own_key w.proposal_id p s.proposals there))

  -- A pending proposal that an analyst who is signed in approves runs at its owner's next call of
  -- execute_query, if by then the owner's bucket has a token, fewer executions than both ceilings are
  -- running and the replica is still the one that the proposal was planned on: the two calls send its
  -- text to the database, once and with its row limit, and nothing else.
  pub approved-runs :
      signed_in r ≡ true
      → get_proposal w.proposal_id s ≡ some p
      → is_pending p.status ≡ true
      → p.user_id ≡ w.user
      → take_token v.limits.rate w.user env.now s ≡ done (s2, allowed)
      → leb v.limits.max_concurrent_total (running none 300 env.now s) ≡ false
      → leb v.limits.max_concurrent_per_user (running (some w.user) 300 env.now s) ≡ false
      → is_stale p.data_as_of env.as_of ≡ false
      → (history v (approves r w.proposal_id by note t ∷ executes env w ∷ []) s).1
        ≡ run_of v.limits p ∷ []
  unfolding history step
  approved-runs signed there waits own token total mine current =
      let (st, taken) = token-allowed v.limits w.user env.now s after s2 after-rates token in
      let s3 = charged after st in
      let claim : claim_for_execution w.proposal_id w.user s3 ≡ done (replace claimed s3, claimed) =
        ap (λ u. claim_for_execution w.proposal_id u s3) (sym own)
        ∙ claim-returns w.proposal_id outcome s3 (after-found st there) refl in
      let sent =
        execute-runs v.limits env w after s3 claimed taken
          (ap (leb v.limits.max_concurrent_total) (after-running st none) ∙ total)
          (ap (leb v.limits.max_concurrent_per_user) (after-running st (some w.user)) ∙ mine) claim
          current in
      ap (λ x. (execute_query v.limits env w x).queries ++ [])
        (approve-returns r w.proposal_id by note t p s signed there waits)
      ∙ ap (λ qs. qs ++ []) sent
