-- ===== src/Common/Strip.antt =====
-- str.strip() of Python: the code points for which str.isspace() holds are dropped at both ends.
use Prim.Native.Nat.{ℕ}
use Prim.Native.Char.{Char, code}
use mathlib.Core.Path.{◌≡◌, refl}
use Prim.Native.String.{String}
use mathlib.Core.Bool.{Bool, true, ◌&&◌, ◌||◌}
use test_analyst_agent.Common.Tests.{leb, ◌==◌, if◌then◌else◌}

unfoldable pub is_space : ℕ → Bool
is_space c =
    (leb 9 c && leb c 13)
    || (leb 28 c && leb c 32)
    || c == 133
    || c == 160
    || c == 5760
    || (leb 8192 c && leb c 8202)
    || c == 8232
    || c == 8233
    || c == 8239
    || c == 8287
    || c == 12288

-- `not text.strip()`
unfoldable pub is_blank : String → Bool
unfolding is_space
is_blank String.[] = true
is_blank (String.◌∷◌ c s) = is_space (code c) && is_blank s

-- text.rstrip(), for the characters that a test names
unfoldable pub put_back : (ℕ → Bool) → Char → String → String
put_back p c String.[] = if p (code c) then String.[] else String.◌∷◌ c String.[]
put_back p c (String.◌∷◌ d s) = String.◌∷◌ c (String.◌∷◌ d s)

unfoldable pub strip_end : (ℕ → Bool) → String → String
unfolding put_back
strip_end p String.[] = String.[]
strip_end p (String.◌∷◌ c s) = put_back p c (strip_end p s)

strip_start : (ℕ → Bool) → String → String
strip_start p String.[] = String.[]
strip_start p (String.◌∷◌ c s) = if p (code c) then strip_start p s else String.◌∷◌ c s

-- text.strip(chars), for the characters that a test names
unfoldable pub strip_chars : (ℕ → Bool) → String → String
unfolding strip_end strip_start
strip_chars p s = strip_start p (strip_end p s)

-- text.strip()
unfoldable pub strip : String → String
unfolding strip_end strip_start is_space
strip s = strip_start is_space (strip_end is_space s)

-- text.strip().rstrip(";").strip()
unfoldable pub strip_statement : String → String
unfolding strip strip_end
strip_statement sql = strip (strip_end (λ c. c == 59) (strip sql))

strip_statement-trailing : strip_statement " SELECT 1 ;; " ≡ "SELECT 1"
unfolding strip_statement
strip_statement-trailing = refl
