-- ===== src/Common/Letters.antt =====
-- str.lower() and str.upper() of Python on Latin and Russian letters (other characters stay as they
-- are), and the test `part in text`.
use Prim.Native.Nat.{ℕ, ◌+◌, ◌-◌, ◌<◌, compare, Ordering}
use Prim.Native.Char.{Char, char, code, IsScalar}
use Prim.Native.String.{String}
use mathlib.Core.Path.{◌≡◌, refl, sym, ap, ap₂, ◌∙◌}
use text.Mathlib.TextEquality.{Char-path}
use mathlib.Core.Bool.{Bool, true, false, ◌&&◌, ◌||◌}
use mathlib.Core.List.{List, [], ◌∷◌, map}
use native.Mathlib.Omega.{arith}
use native.Mathlib.Decide.{dec_lt}
use test_analyst_agent.Common.Tests.{leb, ◌==◌, if◌then◌else◌}

abbrev pub codes : String → List ℕ
codes String.[] = []
codes (String.◌∷◌ c s) = code c ∷ codes s

pub lower_code : ℕ → ℕ
lower_code c =
    if (leb 65 c && leb c 90) || (leb 1040 c && leb c 1071)
    then c + 32
    else if c == 1025
    then 1105
    else c

unfoldable pub upper_code : ℕ → ℕ
upper_code c =
    if (leb 97 c && leb c 122) || (leb 1072 c && leb c 1103)
    then c - 32
    else if c == 1105
    then 1025
    else c

begins_with : List ℕ → List ℕ → Bool
begins_with [] text = true
begins_with (p ∷ part) [] = false
begins_with (p ∷ part) (c ∷ text) = p == c && begins_with part text

-- `part in text`
unfoldable pub occurs_in : List ℕ → List ℕ → Bool
unfolding begins_with
occurs_in part [] = begins_with part []
occurs_in part (c ∷ text) = begins_with part (c ∷ text) || occurs_in part text

-- `part in text.lower()`
unfoldable pub occurs_in_lower : String → String → Bool
unfolding lower_code occurs_in
occurs_in_lower part text = occurs_in (codes part) (map lower_code (codes text))

IsScalar-low : (n : ℕ) → n < 55296 → IsScalar n
IsScalar-low n h = rw (below n h) tt
  where
    below : (n : ℕ) → n < 55296 → compare n 55296 ≡ Ordering.lt
    below n h = ground arith

to_char : ℕ → Char → Char
to_char n c = elim (dec_lt n 55296) [ yes h ↦ char n (IsScalar-low n h) | no h ↦ c ]

unfoldable pub up : Char → Char
unfolding upper_code to_char dec_lt IsScalar-low
up c = to_char (upper_code (code c)) c

down : Char → Char
unfolding lower_code to_char dec_lt IsScalar-low
down c = to_char (lower_code (code c)) c

-- text.lower()
unfoldable pub lower : String → String
unfolding down
lower String.[] = String.[]
lower (String.◌∷◌ c s) = String.◌∷◌ (down c) (lower s)

-- text.upper()
unfoldable pub upper : String → String
unfolding up
upper String.[] = String.[]
upper (String.◌∷◌ c s) = String.◌∷◌ (up c) (upper s)

upper-mandt : upper "mandt1" ≡ "MANDT1"
unfolding upper
upper-mandt = refl

pub code-up : (c : Char) → code (up c) ≡ upper_code (code c)
unfolding up to_char upper_code
code-up c = elim (dec_lt (upper_code (code c)) 55296) [
  | yes h ↦ ground (arith)
  | no h ↦ ground (arith)
]

upper_code_idem : (n : ℕ) → upper_code (upper_code n) ≡ upper_code n
unfolding upper_code
upper_code_idem n = ground arith

up_idem : (c : Char) → up (up c) ≡ up c
up_idem c =
    Char-path (up (up c)) (up c)
      (code-up (up c) ∙ ap upper_code (code-up c) ∙ upper_code_idem (code c) ∙ sym (code-up c))

pub upper_idem : (s : String) → upper (upper s) ≡ upper s
unfolding upper
upper_idem String.[] = refl
upper_idem (String.◌∷◌ c s) = ap₂ String.◌∷◌ (up_idem c) (upper_idem s)

pub upper-cons : (c : Char) (s : String) → upper (String.◌∷◌ c s) ≡ String.◌∷◌ (up c) (upper s)
unfolding upper up
upper-cons c s = refl
