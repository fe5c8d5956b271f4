-- ===== src/Evals/Expected.antt =====
-- evals/src/sap_agent_evals/expected.py: the frozen answers and the files they are kept in. The
-- directory is a dictionary by the question's id, since a file's name is the id with a suffix; what
-- JSON keeps of a frozen result is the result. The hex digest of hashlib is an argument.
pub mod Respelled
use test_analyst_agent.Common.{
  ℕ, String, Bool, Option, none, some, List, map, squeeze, upper, get, put, is_some, str_eq, length,
  first_letters,
}
use test_analyst_agent.Store.Rows.{Cell}

pub record FrozenResult : Type 0 where
  pub question_id : String
  pub fingerprint : String
  pub columns : List String
  pub rows : List (List Cell)
  pub row_count : ℕ
  pub frozen_at : String
  pub data_as_of : Option String
  pub duration_ms : ℕ

abbrev pub Files : Type 0
Files = List (String × FrozenResult)

-- save
unfoldable pub save_frozen : FrozenResult → Files → Files
unfolding put
save_frozen r files = put r.question_id r files

-- load; `none` is the error of a file that is not there
unfoldable pub load_frozen : String → Files → Option FrozenResult
unfolding get
load_frozen id files = get id files

-- exists
abbrev pub is_frozen : String → Files → Bool
is_frozen id files = is_some (load_frozen id files)

module _ (digest : String → String) where
  -- sql_fingerprint
  unfoldable pub sql_fingerprint : String → String
  unfolding squeeze upper
  sql_fingerprint sql = first_letters 16 (digest (upper (squeeze sql)))

  -- FrozenResult.build
  unfoldable pub build :
      String → String → List String → List (List Cell) → Option String → ℕ → String → FrozenResult
  unfolding sql_fingerprint
  build question_id sql columns rows data_as_of duration_ms frozen_at = record {
    question_id = question_id;
    fingerprint = sql_fingerprint sql;
    columns = map upper columns;
    rows = rows;
    row_count = length rows;
    frozen_at = frozen_at;
    data_as_of = data_as_of;
    duration_ms = duration_ms;
  }

  -- FrozenResult.matches
  unfoldable pub matches : FrozenResult → String → Bool
  unfolding sql_fingerprint
  matches r sql = str_eq r.fingerprint (sql_fingerprint sql)
