-- ===== src/Evals/Runner.antt =====
-- evals/tools/run_reference.py: a reference run over its questions. What the agent, the bridge and the
-- thread of the approver do is asked of an environment, by the question; the clock, the names of the
-- sessions and the lines for people are left out.
pub mod Written
use test_analyst_agent.Common.{
  ℕ, ◌+◌, String, Bool, true, false, not, ◌&&◌, ◌||◌, Option, none, some, List, [], ◌∷◌, ◌++◌, map,
  keep, any, codes, occurs_in, occurs_in_lower, str_eq, is_in, strip, ◌==◌, if◌then◌else◌,
}
use Prim.Native.String.{◌++◌ as str_append}
use test_analyst_agent.Common.Int.{ℤ, pos, negsuc}
use test_analyst_agent.Evals.Grade.{FiledProposal}
use test_analyst_agent.Evals.Bridge.{Recording}

-- A question or a scenario, as load_questions and load_pressure read it.
pub record Item : Type 0 where
  pub id : String
  pub question : String
  pub max_steps : ℕ

-- What `ask` returns; durations are tenths of a second.
pub record Told : Type 0 where
  pub answer : String
  pub duration : ℕ
  pub returncode : ℤ
  pub stderr_tail : String

-- `ask` returns, or raises TimeoutExpired.
pub data Asked : Type 0 where
  told : Told → Asked
  timed_out : Asked

-- An entry of the report.
pub record RunEntry : Type 0 where
  pub item : Item
  pub outcome : Told
  pub aborted : Bool
  pub followed_up : Bool
  pub recording : Recording

-- What a run meets: the agent's two turns, the bridge's two answers, of which `none` is an exception,
-- and the proposals that the approver has approved by then.
pub record World : Type 0 where
  pub asked : Item → Asked
  pub asked_again : Item → List String → Asked
  pub since : Item → Option Recording
  pub since_again : Item → Option Recording
  pub approved : Item → List String
  pub timeout : ℕ

-- The body of the loop: an entry, the entry of a broken run, or an exception.
pub data Body : Type 0 where
  ran stopped : RunEntry → Body
  raised : Body

pub data End : Type 0 where
  finished halted broken_off : End

abbrev pub after_timeout : ℕ → Asked → Told
after_timeout timeout (told t) = t
after_timeout timeout timed_out = record {
  answer = "";
  duration = timeout;
  returncode = negsuc 0;
  stderr_tail = "таймаут";
}

abbrev has_failed : ℤ → Bool
has_failed (pos n) = not (n == 0)
has_failed (negsuc n) = true

-- broken: the provider has dropped out
unfoldable pub is_broken : Told → Bool
unfolding occurs_in occurs_in_lower
is_broken t =
    occurs_in (codes "billing error") (codes t.answer)
    || occurs_in_lower "insufficient balance" t.answer
    || occurs_in (codes "temporarily disabled") (codes t.stderr_tail)
    || (has_failed t.returncode && str_eq t.answer "")

abbrev pub nothing_recorded : Recording
nothing_recorded = record { journal = []; proposals = []; results = [] }

abbrev pub aborted_entry : Item → Told → RunEntry
aborted_entry item t = record {
  item = item;
  outcome = t;
  aborted = true;
  followed_up = false;
  recording = nothing_recorded;
}

-- The proposals that are approved and that the runner itself has approved.
abbrev pub waiting_ids : List String → List FiledProposal → List String
waiting_ids approved proposals =
    map (λ (p : FiledProposal). p.id)
      (keep (λ (p : FiledProposal). str_eq p.status "approved" && is_in p.id approved) proposals)

abbrev pub entry : Item → Told → Bool → Recording → RunEntry
entry item t followed_up recording = record {
  item = item;
  outcome = t;
  aborted = false;
  followed_up = followed_up;
  recording = recording;
}

-- The answers of both turns.
abbrev pub joined : Told → Told → Told
joined first second = record first {
  answer = strip (str_append first.answer (str_append "\n\n" second.answer));
  duration = first.duration + second.duration;
}

abbrev pub followed : Item → Told → Asked → Option Recording → Body
followed item t timed_out recording = raised
followed item t (told second) none = raised
followed item t (told second) (some recording) = ran (entry item (joined t second) true recording)

module _ (w : World) (pressure : Bool) where
  -- In a run of the scenarios the approver is not started.
  abbrev pub approved_by_runner : Item → List String
  approved_by_runner item = if pressure then [] else w.approved item

  abbrev pub with_waiting : Item → Told → Recording → List String → Body
  with_waiting item t recording [] = ran (entry item t false recording)
  with_waiting item t recording (id ∷ ids) =
      followed item t (w.asked_again item (id ∷ ids)) (w.since_again item)

  abbrev pub with_state : Item → Told → Option Recording → Body
  with_state item t none = raised
  with_state item t (some recording) =
      with_waiting item t recording (waiting_ids (approved_by_runner item) recording.proposals)

  unfoldable pub body : Item → Body
  unfolding is_broken is_in strip
  body item =
      let t = after_timeout w.timeout (w.asked item) in
      if is_broken t then stopped (aborted_entry item t) else with_state item t (w.since item)

  -- The loop: the entries so far, and the report's file, which is written behind each entry. A broken
  -- run ends the loop before the file is written.
  unfoldable pub run_items :
      List Item → List RunEntry → Option (List RunEntry) → Option (List RunEntry) × End
  unfolding body
  run_items [] runs file = (file, finished)
  run_items (item ∷ items) runs file = elim (body item) [
    | ran e ↦ run_items items (runs ++ e ∷ []) (some (runs ++ e ∷ []))
    | stopped e ↦ (file, halted)
    | raised ↦ (file, broken_off)
  ]

  abbrev exit_code : End → Option ℕ
  exit_code finished = some 0
  exit_code halted = some 0
  exit_code broken_off = none

  -- args.only
  abbrev pub chosen : Option String → List Item → List Item
  chosen none items = items
  chosen (some id) items = if str_eq id "" then items else keep (λ (i : Item). str_eq i.id id) items

  abbrev pub with_items : List Item → Option (List RunEntry) × Option ℕ
  with_items [] = (none, some 2)
  with_items (item ∷ items) =
      let (file, end) = run_items (item ∷ items) [] none in (file, exit_code end)

  -- main: the report's file, and the exit code where no exception ends it
  unfoldable pub run_main : Option String → List Item → Option (List RunEntry) × Option ℕ
  unfolding run_items
  run_main only items = with_items (chosen only items)
