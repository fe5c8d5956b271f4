-- ===== src/Evals/Trajectory/Sound.antt =====
-- A run that passes `check_trajectory`: what it executed it had proposed.
use test_analyst_agent.Common.{
  ◌≡◌, refl, sym, ap, ◌∙◌, String, true, false, Option, none, some, List, [], ◌∷◌, keep, map,
  str_eq, eq_iff, Memᴰ, all-Mem, any-Mem, keep-Mem, Mem-keep, arith, inl, inr, Bool-cases,
}
use mathlib.Core.List.Memᴰ
use test_analyst_agent.Evals.Dataset.{Question}
use test_analyst_agent.Evals.Calls.{
  ToolCall, Run, proposal_id, refused, named, same_id, id_in, is_pending, pending_ids,
}
use test_analyst_agent.Evals.Trajectory.{
  is_proposed, proposed_ids, sql_only_through_a_proposal, pending_waits_for_an_analyst,
  check_trajectory,
}

pub same_id_lem : (a b : Option String) → same_id a b ≡ true → a ≡ b
same_id_lem none none h = refl
same_id_lem none (some b) h = absurd (ground arith)
same_id_lem (some a) none h = absurd (ground arith)
same_id_lem (some a) (some b) h = ap some ((eq_iff a b).0 h)

pub same_id_refl : (a : Option String) → same_id a a ≡ true
same_id_refl none = refl
same_id_refl (some a) = (eq_iff a a).1 refl

-- An id among those of some calls is the id of one of them.
pub id_in-Mem :
    (a : Option String) (cs : List ToolCall)
    → id_in a (map proposal_id cs) ≡ true
    → (c : ToolCall) × Memᴰ c cs × (proposal_id c ≡ a)
id_in-Mem a [] h = absurd (ground arith)
id_in-Mem a (c ∷ cs) h = elim (Bool-cases (same_id (proposal_id c) a)) [
  | inl e ↦ (c, Memᴰ.head refl, same_id_lem (proposal_id c) a e)
  | inr e ↦ let (d, m, q) = id_in-Mem a cs (ground arith) in (d, Memᴰ.tail m, q)
]

pub Mem-id_in :
    (a : Option String) (c : ToolCall) (cs : List ToolCall)
    → Memᴰ c cs
    → proposal_id c ≡ a
    → id_in a (map proposal_id cs) ≡ true
Mem-id_in a c [] m e = absurd (Memᴰ.not-nil m)
Mem-id_in a c (d ∷ cs) (Memᴰ.head s) e =
    let same : proposal_id d ≡ a = ap proposal_id (sym s) ∙ e in
    let found : same_id (proposal_id d) a ≡ true = ap (λ x. same_id x a) same ∙ same_id_refl a in
    ground arith
Mem-id_in a c (d ∷ cs) (Memᴰ.tail m) e = ground (arith, Mem-id_in a c cs m e)

pub named-Mem :
    (name : String) (run : Run) (c : ToolCall)
    → Memᴰ c (named name run)
    → Memᴰ c run.calls × (c.name ≡ name)
named-Mem name run c m =
    let (there, ok) = keep-Mem (λ (x : ToolCall). str_eq x.name name) c run.calls m in
    (there, (eq_iff c.name name).0 ok)

pub Mem-named :
    (name : String) (run : Run) (c : ToolCall)
    → Memᴰ c run.calls
    → c.name ≡ name
    → Memᴰ c (named name run)
Mem-named name run c m e =
    Mem-keep (λ (x : ToolCall). str_eq x.name name) c run.calls m ((eq_iff c.name name).1 e)

-- The proposal of the run that an execution goes back to.
pub record Proposed (run : Run) (c : ToolCall) : Type 0 where
  pub call : ToolCall
  pub there : Memᴰ call run.calls
  pub proposes : call.name ≡ "propose_query"
  pub same : proposal_id call ≡ proposal_id c
  pub accepted : refused call ≡ false
  pub decided : is_pending call ≡ false

both_checks :
    (q : Question) (run : Run)
    → check_trajectory q run ≡ true
    → (sql_only_through_a_proposal run ≡ true) × (pending_waits_for_an_analyst run ≡ true)
unfolding check_trajectory
both_checks q run h = ground arith

-- Under `pending_waits_for_an_analyst` no pending proposal has the id of an execution.
pub executed-not-pending :
    (run : Run) (c p : ToolCall)
    → pending_waits_for_an_analyst run ≡ true
    → Memᴰ c (named "execute_query" run)
    → Memᴰ p (named "propose_query" run)
    → proposal_id p ≡ proposal_id c
    → is_pending p ≡ false
unfolding pending_waits_for_an_analyst
executed-not-pending run c p h mc mp e = elim (Bool-cases (is_pending p)) [
  | inr clear ↦ clear
  | inl waiting ↦
      let waits =
        any-Mem (λ x. id_in (proposal_id x) (pending_ids run)) c (named "execute_query" run) mc
          (ground arith) in
      let listed = Mem-id_in (proposal_id c) p _ (Mem-keep is_pending p _ mp waiting) e in
      absurd (ground arith)
]

-- In a run that passes, every execution is of a proposal of the same run that the server did not
-- refuse and did not leave waiting for an analyst.
pub executed-Proposed :
    (q : Question) (run : Run) (c : ToolCall)
    → check_trajectory q run ≡ true
    → Memᴰ c run.calls
    → c.name ≡ "execute_query"
    → Proposed run c
unfolding sql_only_through_a_proposal
executed-Proposed q run c h m e =
    let (only, waits) = both_checks q run h in
    let mc = Mem-named "execute_query" run c m e in
    let known =
      all-Mem (λ x. id_in (proposal_id x) (proposed_ids run)) c (named "execute_query" run) mc
        only in
    let (p, mp, same) =
      id_in-Mem (proposal_id c) (keep is_proposed (named "propose_query" run)) known in
    let (mn, ok) = keep-Mem is_proposed p (named "propose_query" run) mp in
    let (there, name) = named-Mem "propose_query" run p mn in
    record {
      call = p;
      there = there;
      proposes = name;
      same = same;
      accepted = ground arith;
      decided = executed-not-pending run c p waits mc mn same;
    }
