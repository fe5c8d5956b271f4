-- ===== src/Evals/Compare/Values.antt =====
-- _key_value, _number, _relative_difference and _compare_value of compare.py. Python's floats are a
-- parameter, with what the code does with them.
use Prim.Native.Char.{code}
use test_analyst_agent.Common.{
  ℕ, zero, suc, String, Bool, Option, none, some, str_eq, strip, if◌then◌else◌, ◌==◌,
}
use test_analyst_agent.Common.Int.{ℤ}

pub record Floats : Type 1 where
  pub Float : Type 0
  -- float(n), float(text) where it raises no ValueError
  pub of_int : ℤ → Float
  pub of_text : String → Option Float
  pub is_nan : Float → Bool
  -- x.is_integer(), str(int(x)), str(x), str(n)
  pub is_integer : Float → Bool
  pub int_text : Float → String
  pub text : Float → String
  pub whole_text : ℤ → String
  pub abs : Float → Float
  pub minus : Float → Float → Float
  pub over : Float → Float → Float
  pub max : Float → Float → Float
  pub ltb : Float → Float → Bool
  pub leb : Float → Float → Bool
  -- 0.0 and ZERO
  pub nought : Float
  pub tiny : Float

-- A Decimal is given by its float, a date or a datetime by its isoformat, any other object by its str.
pub data Value (Float : Type 0) : Type 0 where
  null : Value Float
  flag : Bool → Value Float
  whole : ℤ → Value Float
  real decimal : Float → Value Float
  words moment other : String → Value Float

abbrev pub take_text : ℕ → String → String
take_text zero s = ""
take_text (suc n) String.[] = ""
take_text (suc n) (String.◌∷◌ c s) = String.◌∷◌ c (take_text n s)

-- value.replace(" ", "").replace(",", ".")
abbrev pub clean_number : String → String
clean_number String.[] = ""
clean_number (String.◌∷◌ c s) =
    let rest = clean_number s in
    if code c == 32 then rest else if code c == 44 then String.◌∷◌ "." rest else String.◌∷◌ c rest

module _ (F : Floats) where
  open F use {
    Float, of_int, of_text, is_nan, is_integer, int_text, text, whole_text, abs, minus, over, max,
    ltb, leb, nought, tiny,
  }

  abbrev float_text : Float → String
  float_text x = if is_integer x then int_text x else strip (text x)

  -- _key_value
  unfoldable pub key_value : Value Float → String
  unfolding strip
  key_value null = "∅"
  key_value (moment iso) = take_text 10 iso
  key_value (decimal x) = float_text x
  key_value (real x) = float_text x
  key_value (flag b) = if b then "True" else "False"
  key_value (whole n) = strip (whole_text n)
  key_value (words s) = strip s
  key_value (other s) = strip s

  abbrev unless_nan : Float → Option Float
  unless_nan x = if is_nan x then none else some x

  -- _number
  unfoldable pub number_of : Value Float → Option Float
  number_of null = none
  number_of (flag b) = none
  number_of (whole n) = unless_nan (of_int n)
  number_of (real x) = unless_nan x
  number_of (decimal x) = unless_nan x
  number_of (words s) = of_text (clean_number s)
  number_of (moment s) = none
  number_of (other s) = none

  -- _relative_difference
  unfoldable pub relative_difference : Float → Float → Float
  relative_difference expected actual =
      let scale = max (abs expected) (abs actual) in
      if ltb scale tiny then nought else over (abs (minus expected actual)) scale

  pub record Mismatch : Type 0 where
    pub key : String
    pub column : String
    pub difference : Option Float

  abbrev as_text : String → String → Value Float → Value Float → Option Mismatch
  as_text key column expected actual =
      if str_eq (key_value expected) (key_value actual)
      then none
      else some (record { key = key; column = column; difference = none })

  abbrev as_numbers : String → String → Float → Float → Float → Option Mismatch
  as_numbers key column tolerance gold got =
      let difference = relative_difference gold got in
      if leb difference tolerance
      then none
      else some (record { key = key; column = column; difference = some difference })

  abbrev by_numbers :
      String
      → String
      → Float
      → Value Float
      → Value Float
      → Option Float
      → Option Float
      → Option Mismatch
  by_numbers key column tolerance expected actual (some gold) (some got) =
      as_numbers key column tolerance gold got
  by_numbers key column tolerance expected actual (some gold) none =
      as_text key column expected actual
  by_numbers key column tolerance expected actual none got = as_text key column expected actual

  -- _compare_value
  unfoldable pub compare_value :
      String → String → Float → Value Float → Value Float → Option Mismatch
  unfolding key_value number_of relative_difference
  compare_value key column tolerance expected actual =
      by_numbers key column tolerance expected actual (number_of expected) (number_of actual)
