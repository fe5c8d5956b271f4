-- ===== src/Evals/Judge/Rules.antt =====
-- check_answer of judge.py. A check is its id and its status. `none` is an IndexError of a short row.
use Prim.Native.Char.{code}
use test_analyst_agent.Common.{
  ℕ, zero, suc, String, Bool, true, false, ◌||◌, Option, none, some, List, [], ◌∷◌, ◌++◌, any,
  length, str_eq, ◌==◌, if◌then◌else◌, strip, is_in, codes, occurs_in, occurs_in_lower,
}
use test_analyst_agent.Evals.Compare.Values.{Floats, Value, whole, real, take_text}
use test_analyst_agent.Evals.Compare.Tables.{Table, index, get_elem?, and_then, map_some}
use test_analyst_agent.Evals.Judge.Numbers.{Printing, spellings, numbers_in}

pub data Status : Type 0 where
  passed failed skipped : Status

pub record Check : Type 0 where
  pub check_id : String
  pub status : Status

abbrev pub check_of : String → Status → Check
check_of id status = record { check_id = id; status = status }

abbrev pub graded : Bool → Status
graded b = if b then passed else failed

abbrev pub no_data_phrases : List String
no_data_phrases =
    "нет данных" ∷ "данных нет" ∷ "данных за" ∷ "не найдено" ∷ "пусто" ∷ "отсутствуют" ∷ []

abbrev pub method_words : List String
method_words =
    "фильтр" ∷ "таблиц" ∷ "соединен" ∷ "запрос" ∷ "считал" ∷ "посчитан" ∷ "исключ" ∷ "период"
    ∷ "источник" ∷ []

-- day.replace("-", ".")
abbrev dotted_day : String → String
dotted_day String.[] = ""
dotted_day (String.◌∷◌ c s) = String.◌∷◌ (if code c == 45 then "." else c) (dotted_day s)

abbrev pub says : List String → String → Bool
says parts text = any (λ part. occurs_in_lower part text) parts

abbrev contains : String → String → Bool
contains part text = occurs_in (codes part) (codes text)

abbrev take {ℓ} : {A : Type ℓ} → ℕ → List A → List A
take zero xs = []
take (suc n) [] = []
take (suc n) (x ∷ xs) = x ∷ take n xs

abbrev pub mentions : String → String → Bool
mentions day text =
    contains day text || contains (dotted_day day) text || occurs_in_lower "реплик" text

-- The third check, on the moment of the data.
unfoldable pub moment_status : Option String → String → Status
unfolding occurs_in occurs_in_lower
moment_status none text = skipped
moment_status (some as_of) text =
    if str_eq as_of "" then skipped else graded (mentions (take_text 10 as_of) text)

unfoldable pub method_status : String → Status
unfolding occurs_in_lower
method_status text = graded (says method_words text)

module _ (F : Floats) (P : Printing F) where
  open F use {Float, of_int}

  unfoldable pub empty_status : Option (Table F) → String → Status
  unfolding occurs_in_lower
  empty_status none text = skipped
  empty_status (some t) text =
      if length t.rows == 0 then graded (says no_data_phrases text) else skipped

  -- `isinstance(value, (int, float)) and not isinstance(value, bool)`, and float(value)
  abbrev plain_number : Value Float → List Float
  plain_number (whole n) = of_int n ∷ []
  plain_number (real x) = x ∷ []
  plain_number _ = []

  abbrev flatten : List (List Float) → List Float
  flatten [] = []
  flatten (xs ∷ rest) = xs ++ flatten rest

  abbrev number_at : ℕ → List (Value Float) → Option (List Float)
  number_at i row = and_then (get_elem? row i) (λ v. some (plain_number v))

  -- The numbers of one measure in the first five rows; a column that is not there is passed over.
  abbrev column_numbers : Table F → String → Option (List Float)
  column_numbers t column = elim (index F t column) [
    | none ↦ some []
    | some i ↦ and_then (map_some (number_at i) (take 5 t.rows)) (λ found. some (flatten found))
  ]

  unfoldable pub wanted_numbers : Table F → List String → Option (List Float)
  wanted_numbers t measures =
      and_then (map_some (column_numbers t) measures) (λ found. some (flatten found))

  abbrev pub is_written : List String → Float → Bool
  is_written written value = any (λ spelling. is_in spelling written) (spellings F P value)

  abbrev is_none_wanted : List Float → Bool
  is_none_wanted [] = true
  is_none_wanted (x ∷ xs) = false

  abbrev pub carried : List String → List Float → Bool
  carried written wanted = is_none_wanted wanted || any (is_written written) wanted

  unfoldable pub numbers_status : Option (Table F) → List String → String → Option Status
  unfolding numbers_in spellings is_in wanted_numbers
  numbers_status none measures text = some skipped
  numbers_status (some t) measures text =
      if length t.rows == 0 || length measures == 0
      then some skipped
      else and_then (wanted_numbers t measures)
          (λ wanted. some (graded (carried (numbers_in text) wanted)))

  abbrev pub four_checks : String → Option (Table F) → Option String → Status → List Check
  four_checks text result as_of numbers =
      check_of "empty-is-not-zero" (empty_status result text)
      ∷ check_of "numbers-from-the-result" numbers
      ∷ check_of "data-as-of" (moment_status as_of text)
      ∷ check_of "how-obtained" (method_status text)
      ∷ []

  -- check_answer
  unfoldable pub check_answer :
      String → Option (Table F) → Option String → List String → Option (List Check)
  unfolding strip numbers_status empty_status moment_status method_status
  check_answer answer result as_of measures =
      let text = strip answer in
      if str_eq text ""
      then some (check_of "answer-exists" failed ∷ [])
      else and_then (numbers_status result measures text)
          (λ numbers. some (four_checks text result as_of numbers))
