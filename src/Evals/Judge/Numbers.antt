-- ===== src/Evals/Judge/Numbers.antt =====
-- _spellings and _numbers_in of judge.py. `\d` is read as the ten ASCII digits.
use Prim.Native.Char.{code}
use Prim.Native.String.{◌++◌ as str_append}
use test_analyst_agent.Common.{
  ℕ, String, Bool, not, ◌&&◌, ◌||◌, List, [], ◌∷◌, keep, leb, ◌==◌, str_eq, if◌then◌else◌,
  strip_end, is_space, sorted_set,
}
use test_analyst_agent.Common.Int.{ℤ}
use test_analyst_agent.Evals.Compare.Values.{Floats}

-- What the code uses of Python's rounding and formatting.
pub record Printing (F : Floats) : Type 0 where
  -- round(x, n), and round(x), which is an int
  pub round_to : ℕ → F.Float → F.Float
  pub round_int : F.Float → ℤ
  -- f"{x:,.2f}"
  pub fixed : F.Float → String
  pub fixed_int : ℤ → String

abbrev pub is_digit : ℕ → Bool
is_digit c = leb 48 c && leb c 57

abbrev pub keep_chars : (ℕ → Bool) → String → String
keep_chars p String.[] = ""
keep_chars p (String.◌∷◌ c s) = if p (code c) then String.◌∷◌ c (keep_chars p s) else keep_chars p s

-- text.rstrip("0").rstrip("."), then its digits
unfoldable pub digits_of : String → String
unfolding strip_end
digits_of text = keep_chars is_digit (strip_end (λ c. c == 46) (strip_end (λ c. c == 48) text))

abbrev flush : String → List String → List String
flush run rest = if str_eq run "" then rest else run ∷ rest

-- re.findall(r"\d+", text), after the digits of the run that has begun
unfoldable pub digit_runs : String → String → List String
digit_runs run String.[] = flush run []
digit_runs run (String.◌∷◌ c s) =
    let more = digit_runs (str_append run (String.◌∷◌ c String.[])) s in
    let end = flush run (digit_runs "" s) in if is_digit (code c) then more else end

abbrev pub is_kept : ℕ → Bool
is_kept c = not (is_space c || c == 160 || c == 44 || c == 46)

-- _numbers_in
unfoldable pub numbers_in : String → List String
unfolding digit_runs is_space
numbers_in text = digit_runs "" (keep_chars is_kept text)

module _ (F : Floats) (P : Printing F) where
  open F use {Float, text, whole_text}

  -- _spellings
  unfoldable pub spellings : Float → List String
  unfolding digits_of sorted_set
  spellings value =
      let two = P.round_to 2 value in
      let one = P.round_to 1 value in
      let none_left = P.round_int value in
      sorted_set (
        keep (λ d. not (str_eq d ""))
          (digits_of (P.fixed two)
            ∷ digits_of (text two)
            ∷ digits_of (P.fixed one)
            ∷ digits_of (text one)
            ∷ digits_of (P.fixed_int none_left)
            ∷ digits_of (whole_text none_left)
            ∷ []))
