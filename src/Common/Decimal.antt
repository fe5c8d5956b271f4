-- ===== src/Common/Decimal.antt =====
-- int(text) of Python, for ASCII digits: space at both ends, a sign, and digits with single
-- underscores between them. `none` is its ValueError.
use Prim.Native.Nat.{ℕ, zero, suc, ◌+◌, ◌-◌, ◌*◌}
use Prim.Native.String.{String}
use mathlib.Core.Path.{◌≡◌, refl}
use mathlib.Core.Bool.{Bool, true, false, ◌&&◌}
use mathlib.Core.List.{List, [], ◌∷◌}
use mathlib.Core.Option
use mathlib.Core.Option.{Option, none, some}
use test_analyst_agent.Common.Tests.{leb, ◌==◌, if◌then◌else◌}
use test_analyst_agent.Common.Lists.{all}
use test_analyst_agent.Common.Strip.{is_space}
use test_analyst_agent.Common.Letters.{codes}
use test_analyst_agent.Common.Int.{ℤ, pos, negsuc}

-- The flag says that the character before was a digit.
digits : Bool → ℕ → List ℕ → Option ℕ
digits after acc [] = if after then some acc else none
digits after acc (c ∷ cs) =
    let next = digits true (acc * 10 + (c - 48)) cs in
    let gap = digits false acc cs in
    if leb 48 c && leb c 57
    then next
    else if after && c == 95
    then gap
    else if after && is_space c && all is_space cs
    then some acc
    else none

negate : ℕ → ℤ
negate zero = pos 0
negate (suc n) = negsuc n

signed : List ℕ → Option ℤ
signed [] = none
signed (c ∷ cs) =
    if c == 45
    then Option.map negate (digits false 0 cs)
    else if c == 43
    then Option.map pos (digits false 0 cs)
    else Option.map pos (digits false 0 (c ∷ cs))

skip_space : List ℕ → List ℕ
skip_space [] = []
skip_space (c ∷ cs) = if is_space c then skip_space cs else c ∷ cs

unfoldable pub python_int : String → Option ℤ
unfolding digits negate signed skip_space is_space
python_int text = signed (skip_space (codes text))

python_int-forms :
    (python_int " 1_000 " ≡ some (pos 1000))
    × (python_int "-7" ≡ some (negsuc 6))
    × (python_int "1__0" ≡ none)
    × (python_int "ten" ≡ none)
unfolding python_int
python_int-forms = (refl, refl, refl, refl)
