-- ===== src/Tests/Dataset.antt =====
-- Two directories of reference questions.
use test_analyst_agent.Common.{◌≡◌, refl, String, none, some, List, [], ◌∷◌}
use test_analyst_agent.Evals.Dataset.{
  Question, trap, simple, out_of_scope, load_dataset, loaded, broken, question_error, no_must_not,
  bad_instruction, id_twice, wrong_subset, no_directory,
}
use test_analyst_agent.Evals.Dataset.Subsets.{Promised, load_dataset-Promised}
use test_analyst_agent.Evals.Dataset.Complete.{load_dataset-accepts}
use test_analyst_agent.Evals.Dataset.Valid.{Sound}
use test_analyst_agent.Tests.Evals.{question}

abbrev pub refusal : String → List String → Question
refusal id must_not = record {
  id = id;
  difficulty = simple;
  kind = trap;
  trap_type = some out_of_scope;
  instructions = "INSTR-10" ∷ "INSTR-3" ∷ [];
  gold_sql = none;
  expect = record {
    key_columns = [];
    measure_columns = [];
    refusal_reason = "not in the data";
    must_not = must_not;
  };
  expected_tools = [];
  max_steps = 10;
}

abbrev pub sealed_trap : Question
sealed_trap = refusal "sealed-01" ("a guess" ∷ [])

trap_needs_must_not : question_error (refusal "sealed-01" []) ≡ some no_must_not
unfolding question_error
trap_needs_must_not = refl

instruction_needs_digits :
    question_error (record question { instructions = "INSTR-" ∷ [] }) ≡ some bad_instruction
unfolding question_error
instruction_needs_digits = refl

refuses_twice : load_dataset (some (question ∷ question ∷ [])) (some []) ≡ broken id_twice
unfolding load_dataset
refuses_twice = refl

refuses_other_subset : load_dataset (some (sealed_trap ∷ [])) (some []) ≡ broken wrong_subset
unfolding load_dataset
refuses_other_subset = refl

refuses_no_directory : load_dataset (some (question ∷ [])) none ≡ broken no_directory
unfolding load_dataset
refuses_no_directory = refl

loads :
    load_dataset (some (question ∷ [])) (some (sealed_trap ∷ []))
    ≡ loaded (question ∷ sealed_trap ∷ [])
unfolding load_dataset
loads = refl

question-Sound : Sound "open-" question
unfolding question_error
question-Sound = record { consistent = refl; of_subset = refl }

sealed_trap-Sound : Sound "sealed-" sealed_trap
unfolding question_error
sealed_trap-Sound = record { consistent = refl; of_subset = refl }

load_dataset-Promised_example :
    Promised (question ∷ []) (sealed_trap ∷ []) (question ∷ sealed_trap ∷ [])
load_dataset-Promised_example =
    load_dataset-Promised (question ∷ []) (sealed_trap ∷ []) (question ∷ sealed_trap ∷ []) loads

load_dataset-accepts_example :
    load_dataset (some (question ∷ [])) (some (sealed_trap ∷ []))
    ≡ loaded (question ∷ sealed_trap ∷ [])
load_dataset-accepts_example =
    load_dataset-accepts (question ∷ []) (sealed_trap ∷ []) (question-Sound, tt)
      (sealed_trap-Sound, tt) ((refl, tt), (tt, tt))
