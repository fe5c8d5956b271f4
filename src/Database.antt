-- ===== src/Database.antt =====
-- Rows and Database.run of mcp_server/src/sap_agent_mcp/db.py. The cursor is not part of the
-- repository: what it answers to a statement is an argument.
pub mod Explain
use test_analyst_agent.Common.{
  ℕ, zero, suc, ◌+◌, String, Bool, false, ◌||◌, Option, none, some, List, [], ◌∷◌, ltb, ◌==◌,
  length, if◌then◌else◌, ◌≡◌, refl, ap, arith, min,
}
use native.Mathlib.Numerals.{add-one}
use test_analyst_agent.Store.Rows.{Cell}

pub record Rows : Type 0 where
  pub columns : List String
  pub rows : List (List Cell)
  pub row_count : ℕ
  pub truncated : Bool
  pub duration_ms : ℕ

pub record Plan : Type 0 where
  pub lines : List String
  pub estimated_rows : Option ℕ

-- What the driver does with a statement: it has rows (the header first), it raises a database
-- error with a code or without one, or no session can be had.
pub data Cursor : Type 0 where
  fetched : List String → List (List Cell) → Cursor
  database_error : Option ℕ → Cursor
  no_session : Cursor

pub data RunOutcome : Type 0 where
  answered : Rows → RunOutcome
  timeout refused : RunOutcome
  crashed : RunOutcome

-- rows[:n]
abbrev pub take {ℓ} : {A : Type ℓ} → ℕ → List A → List A
take zero xs = []
take (suc n) [] = []
take (suc n) (x ∷ xs) = x ∷ take n xs

abbrev pub is_timeout : Option ℕ → Bool
is_timeout none = false
is_timeout (some code) = code == 1013 || code == 3156 || code == 2393

-- `fetchmany(max_rows + 1)` returns at most that many rows. An error before the statement, where
-- the session is taken from the pool, is not caught.
unfoldable pub run : ℕ → ℕ → Cursor → RunOutcome
run max_rows duration (fetched columns all) =
    let fetch = take (max_rows + 1) all in
    let rows = take max_rows fetch in
    answered (record {
      columns = columns;
      rows = rows;
      row_count = length rows;
      truncated = ltb max_rows (length fetch);
      duration_ms = duration;
    })
run max_rows duration (database_error code) = if is_timeout code then timeout else refused
run max_rows duration no_session = crashed

pub length-take {ℓ} : {A : Type ℓ} (n : ℕ) (xs : List A) → length (take n xs) ≡ min n (length xs)
length-take zero xs = omega arith
length-take (suc n) [] = omega arith
length-take (suc n) (x ∷ xs) = omega (arith, length-take n xs)

take-take {ℓ} : {A : Type ℓ} (n : ℕ) (xs : List A) → take n (take (suc n) xs) ≡ take n xs
take-take zero [] = refl
take-take zero (x ∷ xs) = refl
take-take (suc n) [] = refl
take-take (suc n) (x ∷ xs) = ap (◌∷◌ x) (take-take n xs)

-- A run that answers has the first rows of the cursor, as many as the limit lets through, counts
-- them, and is marked as truncated exactly when the cursor had more.
pub run-answered :
    (max_rows duration : ℕ) (columns : List String) (all : List (List Cell)) (rows : Rows)
    → run max_rows duration (fetched columns all) ≡ answered rows
    → (rows.rows ≡ take max_rows all)
      × (rows.row_count ≡ min max_rows (length all))
      × (rows.truncated ≡ ltb max_rows (length all))
unfolding run
run-answered m d columns all rows h =
    ground (arith, add-one m, take-take m all, length-take m all, length-take (suc m) all)
