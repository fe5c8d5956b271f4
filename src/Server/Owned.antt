-- ===== src/Server/Owned.antt =====
-- Whose proposals the server runs.
use test_analyst_agent.Common.{
  String, false, ◌≡◌, ◌⊎◌, refl, sym, ap, ◌∙◌, Option, none, some, List, All, get, str_eq, eq_iff,
  Bool-cases, Option-cases, inl, inr,
}
use mathlib.Core.Path.{subst}
use test_analyst_agent.Store.Rows.{Store, Proposal}
use test_analyst_agent.Store.Proposals.{get_proposal}
use test_analyst_agent.Guards.Verdict.{Verdict}
use test_analyst_agent.Tools.Propose.{Proposing, Asked, propose_checked}
use test_analyst_agent.Tools.Replies.{Limits, Query, run, explain}
use test_analyst_agent.System.{Service, Call, proposes, executes, checks_sanity, describes, step}
use test_analyst_agent.System.Approval.{execute_query-Approved}
use test_analyst_agent.System.Once.{sanity-queries}
use test_analyst_agent.Tools.Propose.Effects.{propose-queries}
use test_analyst_agent.Server

abbrev header_name : Server.Gateway → Option String
header_name g = get "x-analyst-id" (Server.lowered g.headers)

-- No text, or the empty one.
abbrev Blank : Option String → Type 0
Blank o = (o ≡ none) ⊎ (o ≡ some "")

-- The name that the gateway gives: the header's; the environment's only where the header is missing or
-- empty.
pub data NamedBy (g : Server.Gateway) (analyst : String) : Type 0 where
  by_header : header_name g ≡ some analyst → str_eq analyst "" ≡ false → NamedBy g analyst
  by_default :
      Blank (header_name g)
      → g.default_analyst ≡ some analyst
      → str_eq analyst "" ≡ false
      → NamedBy g analyst

-- The analyst in whose name a tool is called.
abbrev pub caller : Call → Option String
caller (describes as_of table user now) = some user
caller (proposes env a) = some a.user
caller (executes env w) = some w.user
caller (checks_sanity id user now) = some user
caller _ = none

call_by-caller :
    (a : Server.Around) (who : String × Option String) (request : Server.ToolRequest)
    → caller (Server.call_by a who request) ≡ some who.0
call_by-caller a (analyst, trace) (Server.describe_schema table) = refl
call_by-caller a (analyst, trace) (Server.propose_query question sql) = refl
call_by-caller a (analyst, trace) (Server.execute_query id) = refl
call_by-caller a (analyst, trace) (Server.sanity_check id) = refl

-- A statement that runs a proposal: it is the analyst's own, and its text is the proposal's.
pub record OwnRun (analyst id sql : String) (s : Store) : Type 0 where
  pub proposal : Proposal
  pub found : get_proposal id s ≡ some proposal
  pub own : proposal.user_id ≡ analyst
  pub text : proposal.sql ≡ sql

abbrev pub OwnQuery : String → Store → Query → Type 0
OwnQuery analyst s (explain sql) = Unit
OwnQuery analyst s (run id sql rows seconds) = OwnRun analyst id sql s

propose_own :
    (l : Limits) (env : Proposing) (asked : Asked) (o : Option Verdict) (s : Store)
    → All (OwnQuery asked.user s) (propose_checked l env asked o s).queries
unfolding propose_checked
propose_own l env asked none s = tt
propose_own l env asked (some w) s = elim (propose-queries l env asked w s) [
  | inl e ↦ subst (All (OwnQuery asked.user s)) (sym e) tt
  | inr e ↦ subst (All (OwnQuery asked.user s)) (sym e) (tt, tt)
]

request_own :
    (v : Service) (a : Server.Around) (who : String × Option String) (request : Server.ToolRequest)
    (s : Store)
    → All (OwnQuery who.0 s) (step v (Server.call_by a who request) s).1
unfolding step
request_own v a (analyst, trace) (Server.describe_schema table) s = tt
request_own v a (analyst, trace) (Server.propose_query question sql) s =
    propose_own v.limits a.proposing
      (record { question = question; sql = sql; user = analyst; trace = trace }) (v.guards sql) s
request_own v a (analyst, trace) (Server.execute_query id) s =
    elim (execute_query-Approved v.limits a.executing
      (record { proposal_id = id; user = analyst; trace = trace }) s) [
        | inl e ↦ subst (All (OwnQuery analyst s)) (sym e) tt
        | inr p ↦
            subst (All (OwnQuery analyst s)) (sym p.statement)
              (record { proposal = p.proposal; found = p.found; own = p.own; text = refl }, tt)
      ]
request_own v a (analyst, trace) (Server.sanity_check id) s =
    subst (All (OwnQuery analyst s)) (sym (sanity-queries v.limits id analyst a.now s)) tt

filled :
    (o : Option String) (a : String)
    → Server.non_empty o ≡ some a
    → (o ≡ some a) × (str_eq a "" ≡ false)
filled none a h = absurd (nothing h)
  where
    nothing : none ≡ some a → ⊥
    nothing h = cc
filled (some t) a h = elim (Bool-cases (str_eq t "")) [
  | inl e ↦ absurd (nothing (rw e at h))
  | inr e ↦
      let same : t ≡ a = some_inj (rw e at h) in
      (ap (λ x. some x) same, subst (λ x. str_eq x "" ≡ false) same e)
]
  where
    nothing : none ≡ some a → ⊥
    nothing h = cc

    some_inj : some t ≡ some a → t ≡ a
    some_inj h = cc

unfilled : (o : Option String) → Server.non_empty o ≡ none → Blank o
unfilled none h = inl refl
unfilled (some t) h = elim (Bool-cases (str_eq t "")) [
  | inl e ↦ inr (ap (λ x. some x) ((eq_iff t "").0 e))
  | inr e ↦ absurd (something (rw e at h))
]
  where
    something : some t ≡ none → ⊥
    something h = cc

one_of :
    (g : Server.Gateway) (o d trace : Option String) (who : String × Option String)
    → header_name g ≡ o
    → g.default_analyst ≡ d
    → Server.with_trace (Server.first_of (Server.non_empty o) (Server.non_empty d)) trace ≡ some who
    → NamedBy g who.0
one_of g o d trace who e e' h = elim (Option-cases (Server.non_empty o)) [
  | inr (a, f) ↦
      let (there, full) = filled o a f in
      subst (NamedBy g) (name_of a (rw f at h)) (by_header (e ∙ there) full)
  | inl f ↦ elim (Option-cases (Server.non_empty d)) [
    | inr (a, f') ↦
        let (there, full) = filled d a f' in
        subst (NamedBy g) (name_of a (rw (f, f') at h))
          (by_default (subst Blank (sym e) (unfilled o f)) (e' ∙ there) full)
    | inl f' ↦ absurd (nobody (rw (f, f') at h))
  ]
]
  where
    pair_inj : (x y : String × Option String) → some x ≡ some y → x ≡ y
    pair_inj x y h = cc

    name_of : (a : String) → some (a, trace) ≡ some who → a ≡ who.0
    name_of a h = ap (λ (p : String × Option String). p.0) (pair_inj (a, trace) who h)

    nobody : none ≡ some who → ⊥
    nobody h = cc

identity-NamedBy :
    (g : Server.Gateway) (who : String × Option String)
    → Server.identity g ≡ some who
    → NamedBy g who.0
unfolding Server.identity
identity-NamedBy g who h =
    one_of g (get "x-analyst-id" (Server.lowered g.headers)) g.default_analyst
      (get "x-trace-id" (Server.lowered g.headers)) who refl refl h

-- Whose request it was: the one call that it makes is in this name, and runs nothing of anyone else.
pub record Owned (v : Service) (g : Server.Gateway) (s : Store) (after : Store × List Query)
    : Type 0 where
  pub analyst : String
  pub named : NamedBy g analyst
  pub call : Call
  pub in_name : caller call ≡ some analyst
  pub made : step v call s ≡ after
  pub own : All (OwnQuery analyst s) after.1

served-Owned :
    (v : Service) (g : Server.Gateway) (a : Server.Around) (request : Server.ToolRequest)
    (s : Store) (o : Option (String × Option String)) (after : Store × List Query)
    → Server.identity g ≡ o
    → Server.served v a request s o ≡ some after
    → Owned v g s after
served-Owned v g a request s none after e h = cc
served-Owned v g a request s (some who) after e h = record {
  analyst = who.0;
  named = identity-NamedBy g who e;
  call = Server.call_by a who request;
  in_name = call_by-caller a who request;
  made = after_inj _ after h;
  own =
      subst (λ (t : Store × List Query). All (OwnQuery who.0 s) t.1) (after_inj _ after h)
        (request_own v a who request s);
}
  where
    after_inj : (x y : Store × List Query) → some x ≡ some y → x ≡ y
    after_inj x y h = cc

-- A request that the server takes is one call of a tool under a name that is not empty: that of the
-- gateway's header, and DEFAULT_ANALYST_ID only where the header is missing or empty, whatever the
-- arguments are. It runs no text but that of a proposal of the analyst with this name.
pub serve-Owned :
    (v : Service) (g : Server.Gateway) (a : Server.Around) (request : Server.ToolRequest)
    (s : Store) (after : Store × List Query)
    → Server.serve v g a request s ≡ some after
    → Owned v g s after
unfolding Server.serve
serve-Owned v g a request s after h = served-Owned v g a request s (Server.identity g) after refl h
