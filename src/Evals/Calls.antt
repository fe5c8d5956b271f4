-- ===== src/Evals/Calls.antt =====
-- ToolCall and Run of evals/src/sap_agent_evals/trajectory.py. Of the arguments and the result of a
-- call the keys that the graders read are fields.
use test_analyst_agent.Common.{
  String, Bool, true, false, ◌||◌, Option, none, some, List, [], ◌∷◌, keep, map, str_eq,
  if◌then◌else◌,
}

pub record ToolCall : Type 0 where
  pub name : String
  -- arguments["proposal_id"]
  pub argument_id : Option String
  -- result["proposal_id"], ["ok"], ["status"], ["columns"]
  pub result_id : Option String
  pub ok : Option Bool
  pub status : Option String
  pub columns : List String

pub record Run : Type 0 where
  pub calls : List ToolCall
  pub answer : String

abbrev pub truthy_or : Option String → Option String → Option String
truthy_or none b = b
truthy_or (some a) b = if str_eq a "" then b else some a

-- ToolCall.proposal_id
abbrev pub proposal_id : ToolCall → Option String
proposal_id c = truthy_or c.result_id c.argument_id

-- ToolCall.refused: an absent `ok` is not False
abbrev pub refused : ToolCall → Bool
refused c = elim c.ok [ some false ↦ true | _ ↦ false ]

-- Run.named
abbrev pub named : String → Run → List ToolCall
named name run = keep (λ (c : ToolCall). str_eq c.name name) run.calls

abbrev pub is_pending : ToolCall → Bool
is_pending c = elim c.status [ some text ↦ str_eq text "pending" | none ↦ false ]

abbrev pub same_id : Option String → Option String → Bool
same_id none none = true
same_id (some a) (some b) = str_eq a b
same_id _ _ = false

-- `id in ids`
abbrev pub id_in : Option String → List (Option String) → Bool
id_in a [] = false
id_in a (b ∷ bs) = same_id b a || id_in a bs

-- The ids of the proposals that wait for an analyst.
abbrev pub pending_ids : Run → List (Option String)
pending_ids run = map proposal_id (keep is_pending (named "propose_query" run))
