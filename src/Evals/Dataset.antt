-- ===== src/Evals/Dataset.antt =====
-- evals/src/sap_agent_evals/dataset.py, from the parsed files on. Texts for people are left out, and
-- so are the fields that no code reads.
pub mod Complete
pub mod Subsets
pub mod Valid
use test_analyst_agent.Common.{
  ℕ, String, Bool, true, false, not, ◌&&◌, ◌||◌, Option, none, some, List, [], ◌∷◌, ◌++◌, map, keep,
  all, any, leb, ◌==◌, length, str_eq, is_blank, is_in, codes, find, if◌then◌else◌, is_some,
}

pub data Kind : Type 0 where
  answerable trap : Kind

pub data Difficulty : Type 0 where
  simple medium complex : Difficulty

pub data TrapType : Type 0 where
  pii out_of_scope ambiguous no_data : TrapType

-- Expectation without its tolerance, which Compare has.
pub record Expect : Type 0 where
  pub key_columns : List String
  pub measure_columns : List String
  pub refusal_reason : String
  pub must_not : List String

pub record Question : Type 0 where
  pub id : String
  pub difficulty : Difficulty
  pub kind : Kind
  pub trap_type : Option TrapType
  pub expected_tools : List String
  pub instructions : List String
  pub max_steps : ℕ
  pub gold_sql : Option String
  pub expect : Expect

pub data DatasetError : Type 0 where
  bad_instruction no_gold no_measures typed : DatasetError
  gold_in_trap no_trap_type no_reason no_must_not : DatasetError
  no_directory wrong_subset id_twice : DatasetError

abbrev pub prefix : List ℕ → List ℕ → Bool
prefix [] text = true
prefix (p ∷ ps) [] = false
prefix (p ∷ ps) (c ∷ text) = p == c && prefix ps text

-- text.startswith(part)
abbrev pub starts_with : String → String → Bool
starts_with part text = prefix (codes part) (codes text)

abbrev drop_prefix : List ℕ → List ℕ → List ℕ
drop_prefix [] text = text
drop_prefix (p ∷ ps) [] = []
drop_prefix (p ∷ ps) (c ∷ text) = drop_prefix ps text

abbrev is_number : List ℕ → Bool
is_number [] = false
is_number (c ∷ cs) = all (λ d. leb 48 d && leb d 57) (c ∷ cs)

-- re.fullmatch(r"INSTR-\d+", name), with the ASCII digits
abbrev pub is_instruction : String → Bool
is_instruction name =
    starts_with "INSTR-" name && is_number (drop_prefix (codes "INSTR-") (codes name))

abbrev pub first_error : Option DatasetError → Option DatasetError → Option DatasetError
first_error none b = b
first_error (some a) b = some a

abbrev pub unless : Bool → DatasetError → Option DatasetError → Option DatasetError
unless good e rest = if good then rest else some e

abbrev has_text : Option String → Bool
has_text none = false
has_text (some s) = not (str_eq s "")

abbrev says : Option String → Bool
says none = false
says (some s) = not (is_blank s)

abbrev is_empty : List String → Bool
is_empty [] = true
is_empty (x ∷ xs) = false

abbrev pub kind_error : Question → Option DatasetError
kind_error q = elim q.kind [
  | answerable ↦ unless (has_text q.gold_sql && says q.gold_sql) no_gold (
      unless (not (is_empty q.expect.measure_columns)) no_measures
        (unless (not (is_some q.trap_type)) typed none))
  | trap ↦ unless (not (has_text q.gold_sql)) gold_in_trap (
      unless (is_some q.trap_type) no_trap_type (
        unless (not (is_blank q.expect.refusal_reason)) no_reason
          (unless (not (is_empty q.expect.must_not)) no_must_not none)))
]

-- Question._consistent
unfoldable pub question_error : Question → Option DatasetError
unfolding is_blank
question_error q = unless (all is_instruction q.instructions) bad_instruction (kind_error q)

abbrev pub sealed : Question → Bool
sealed q = starts_with "sealed-" q.id

-- Dataset.open, sealed, traps, answerable
abbrev pub open_of : List Question → List Question
open_of qs = keep (λ q. not (sealed q)) qs

abbrev pub sealed_of : List Question → List Question
sealed_of qs = keep sealed qs

abbrev is_trap : Question → Bool
is_trap q = elim q.kind [ trap ↦ true | answerable ↦ false ]

abbrev pub traps_of : List Question → List Question
traps_of qs = keep is_trap qs

abbrev pub answerable_of : List Question → List Question
answerable_of qs = keep (λ q. not (is_trap q)) qs

abbrev pub question_key : Question → String
question_key q = q.id

-- Dataset.by_id; `none` is a KeyError
abbrev pub by_id : List Question → String → Option Question
by_id qs id = find question_key id qs

pub data Loaded : Type 0 where
  loaded : List Question → Loaded
  broken : DatasetError → Loaded

abbrev pub go_on : Loaded → (List Question → Loaded) → Loaded
go_on (loaded qs) f = f qs
go_on (broken e) f = broken e

-- What a file of a subset is refused for, after the files before it.
abbrev pub file_error : String → List Question → Question → Option DatasetError
file_error subset before q = first_error (question_error q) (
    unless (starts_with subset q.id) wrong_subset
      (unless (not (is_some (find question_key q.id before))) id_twice none))

abbrev pub stop_on : Option DatasetError → Loaded → Loaded
stop_on none r = r
stop_on (some e) r = broken e

unfoldable pub read_files : String → List Question → List Question → Loaded
unfolding question_error find
read_files subset [] before = loaded before
read_files subset (q ∷ qs) before =
    let rest = read_files subset qs (before ++ q ∷ []) in stop_on (file_error subset before q) rest

-- The parsed files of a directory in the order of their names; `none` where it is not there.
abbrev pub read_subset : String → Option (List Question) → List Question → Loaded
read_subset subset none before = broken no_directory
read_subset subset (some files) before = read_files subset files before

-- load_dataset
unfoldable pub load_dataset : Option (List Question) → Option (List Question) → Loaded
unfolding read_files
load_dataset open_files sealed_files =
    go_on (read_subset "open-" open_files []) (read_subset "sealed-" sealed_files)
