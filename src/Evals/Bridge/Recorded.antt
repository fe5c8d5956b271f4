-- ===== src/Evals/Bridge/Recorded.antt =====
-- What the scenarios' check on personal data sees of a run that the bridge has recorded.
use test_analyst_agent.Common.{
  ℕ, String, true, not, ◌&&◌, ◌≡◌, refl, Option, none, some, List, [], ◌∷◌, ◌++◌, map, keep, All,
  get, put, get-put, find, str_eq, Bool-cases, inl, inr, OrderBy,
}
use test_analyst_agent.Store.Rows.{Store, Proposal, JournalEntry}
use test_analyst_agent.Evals.Calls.{ToolCall, Run}
use test_analyst_agent.Evals.Pressure.{no_personal_data, proposed_columns}
use test_analyst_agent.Evals.Grade.{
  Line, FiledProposal, analyst, by_id_over, proposal_of, columns_of, call_of, calls_by, calls_of,
}
use test_analyst_agent.Evals.Bridge.{
  Detail, filed_of, bridge_since, proposals_since, journal_since, line_of,
}

-- Every proposal that is found has no columns.
abbrev Bare : List (String × FiledProposal) → Type 0
Bare d = (id : String) → columns_of (get id d) ≡ []

Bare-nothing : Bare []
unfolding get find
Bare-nothing id = refl

put-Bare :
    (p : FiledProposal) (d : List (String × FiledProposal))
    → p.columns ≡ []
    → Bare d
    → Bare (put p.id p d)
put-Bare p d e b id = elim (Bool-cases (str_eq p.id id)) [
  | inl own ↦ rw (get-put p.id id p d, own) e
  | inr other ↦ rw (get-put p.id id p d, other) (b id)
]

by_id_over-Bare :
    (d : List (String × FiledProposal)) (ps : List FiledProposal)
    → All (λ (p : FiledProposal). p.columns ≡ []) ps
    → Bare d
    → Bare (by_id_over d ps)
by_id_over-Bare d [] a b = b
by_id_over-Bare d (p ∷ ps) (e, a) b = by_id_over-Bare (put p.id p d) ps a (put-Bare p d e b)

filed_bare : (ps : List Proposal) → All (λ (p : FiledProposal). p.columns ≡ []) (map filed_of ps)
filed_bare [] = tt
filed_bare (p ∷ ps) = (refl, filed_bare ps)

abbrev IsBare : ToolCall → Type 0
IsBare c = c.columns ≡ []

proposal_of-Bare :
    (d : List (String × FiledProposal)) (o : Option String)
    → Bare d
    → columns_of (proposal_of d o) ≡ []
proposal_of-Bare d none b = b ""
proposal_of-Bare d (some id) b = b id

call_of-IsBare : (d : List (String × FiledProposal)) (e : Line) → Bare d → All IsBare (call_of d e)
call_of-IsBare d e b = elim (Bool-cases (str_eq e.tool "describe_schema")) [
  | inl a ↦ rw a (refl, tt)
  | inr a ↦ elim (Bool-cases (str_eq e.tool "propose_query")) [
    | inl p ↦ rw (a, p) (proposal_of-Bare d e.proposal_id b, tt)
    | inr p ↦
        elim (Bool-cases (str_eq e.tool "execute_query" && not (str_eq e.outcome "started"))) [
          | inl x ↦ rw (a, p, x) (refl, tt)
          | inr x ↦ elim (Bool-cases (str_eq e.tool "sanity_check")) [
            | inl y ↦ rw (a, p, x, y) (refl, tt)
            | inr y ↦ rw (a, p, x, y) tt
          ]
        ]
  ]
]

append-IsBare : (xs ys : List ToolCall) → All IsBare xs → All IsBare ys → All IsBare (xs ++ ys)
append-IsBare [] ys a b = b
append-IsBare (x ∷ xs) ys (e, a) b = (e, append-IsBare xs ys a b)

calls_by-IsBare :
    (d : List (String × FiledProposal)) (es : List Line) → Bare d → All IsBare (calls_by d es)
calls_by-IsBare d [] b = tt
calls_by-IsBare d (e ∷ es) b = elim (Bool-cases (not (str_eq e.user_id analyst))) [
  | inl other ↦ rw other (calls_by-IsBare d es b)
  | inr own ↦
      rw own (
        append-IsBare (call_of d e) (calls_by d es) (call_of-IsBare d e b) (calls_by-IsBare d es b))
]

no_columns :
    (name : String) (cs : List ToolCall)
    → All IsBare cs
    → proposed_columns (keep (λ (c : ToolCall). str_eq c.name name) cs) ≡ []
no_columns name [] a = refl
no_columns name (c ∷ cs) (e, a) = elim (Bool-cases (str_eq c.name name)) [
  | inl own ↦ rw (own, e) (no_columns name cs a)
  | inr other ↦ rw other (no_columns name cs a)
]

bare_passes : (run : Run) → All IsBare run.calls → no_personal_data run ≡ true
unfolding no_personal_data
bare_passes run a = rw (no_columns "propose_query" run.calls a) refl

module _ (orders : (A : Type 0) → OrderBy A) where
  -- A recorded run, as grade_pressure_runs of grade_reference.py takes it for a scenario.
  abbrev pub recorded_run : (JournalEntry → Detail) → ℕ → Store → String → Run
  recorded_run detail moment s answer = record {
    calls =
        calls_of (bridge_since orders detail moment s).proposals
          (bridge_since orders detail moment s).journal;
    answer = answer;
  }

  -- In a run as the bridge records it and grade_reference.py reads it, the check no-personal-data of a
  -- scenario passes, whatever columns the agent's proposals read.
  pub bridge_since-no_personal_data :
      (detail : JournalEntry → Detail) (moment : ℕ) (s : Store) (answer : String)
      → no_personal_data (recorded_run detail moment s answer) ≡ true
  unfolding bridge_since calls_of
  bridge_since-no_personal_data detail moment s answer =
      let proposals = map filed_of (proposals_since orders moment s) in
      let lines = map (line_of detail) (journal_since orders moment s) in
      bare_passes (recorded_run detail moment s answer) (
        calls_by-IsBare (by_id_over [] proposals) lines (
          by_id_over-Bare [] proposals (filed_bare (proposals_since orders moment s)) Bare-nothing))
