-- ===== src/Common/Words.antt =====
-- " ".join(text.split()) of Python: the words of a text with one blank between them.
use Prim.Native.Nat.{ℕ, zero, suc}
use Prim.Native.Char.{Char, char, code}
use Prim.Native.String.{String}
use mathlib.Core.Path.{◌≡◌, refl, ap, ap₂, ◌∙◌}
use mathlib.Core.Bool.{true, false}
use mathlib.Core.Logic.{inl, inr}
use native.Mathlib.Omega.{arith}
use test_analyst_agent.Common.Tests.{if◌then◌else◌, Bool-cases}
use test_analyst_agent.Common.Strip.{is_space}
use test_analyst_agent.Common.Letters.{upper, up, upper_code, code-up, upper-cons}

-- text[:n]
abbrev pub first_letters : ℕ → String → String
first_letters zero s = String.[]
first_letters (suc n) String.[] = String.[]
first_letters (suc n) (String.◌∷◌ c s) = String.◌∷◌ c (first_letters n s)

-- Before the first word, in a word, or behind one.
pub data Place : Type 0 where
  start word gap : Place

abbrev pub blank : Char
blank = char 32 tt

abbrev pub begun : Place → String → String
begun gap s = String.◌∷◌ blank s
begun start s = s
begun word s = s

abbrev pub behind : Place → Place
behind start = start
behind word = gap
behind gap = gap

squeeze_from : Place → String → String
unfolding is_space
squeeze_from p String.[] = String.[]
squeeze_from p (String.◌∷◌ c s) =
    let skipped = squeeze_from (behind p) s in
    let taken = squeeze_from word s in
    if is_space (code c) then skipped else begun p (String.◌∷◌ c taken)

unfoldable pub squeeze : String → String
unfolding squeeze_from
squeeze s = squeeze_from start s

squeeze_small : squeeze "  a \t b\nc " ≡ "a b c"
unfolding squeeze
squeeze_small = refl

is_space-upper_code : (n : ℕ) → is_space (upper_code n) ≡ is_space n
unfolding is_space upper_code
is_space-upper_code n = ground arith

is_space-up : (c : Char) → is_space (code (up c)) ≡ is_space (code c)
is_space-up c = ap is_space (code-up c) ∙ is_space-upper_code (code c)

up-blank : up blank ≡ blank
unfolding up
up-blank = refl

upper-begun :
    (p : Place) (c : Char) (s : String)
    → upper (begun p (String.◌∷◌ c s)) ≡ begun p (String.◌∷◌ (up c) (upper s))
upper-begun start c s = upper-cons c s
upper-begun word c s = upper-cons c s
upper-begun gap c s = upper-cons blank (String.◌∷◌ c s) ∙ ap₂ String.◌∷◌ up-blank (upper-cons c s)

squeeze_from-upper : (p : Place) (s : String) → squeeze_from p (upper s) ≡ upper (squeeze_from p s)
unfolding squeeze_from
squeeze_from-upper p String.[] = unfold upper in refl
squeeze_from-upper p (String.◌∷◌ c s) = elim (Bool-cases (is_space (code c))) [
  | inl e ↦ rw (upper-cons c s, is_space-up c, e) (squeeze_from-upper (behind p) s)
  | inr e ↦
      rw
        (
          upper-cons c s,
          is_space-up c,
          e,
          upper-begun p c (squeeze_from word s),
          squeeze_from-upper word s,
        )
        refl
]

-- Capitals come before or after the words are put together.
pub squeeze-upper : (s : String) → squeeze (upper s) ≡ upper (squeeze s)
unfolding squeeze
squeeze-upper s = squeeze_from-upper start s

at_blank :
    (p : Place) (c : Char) (s : String)
    → is_space (code c) ≡ true
    → squeeze_from p (String.◌∷◌ c s) ≡ squeeze_from (behind p) s
unfolding squeeze_from
at_blank p c s e = rw e refl

at_letter :
    (p : Place) (c : Char) (s : String)
    → is_space (code c) ≡ false
    → squeeze_from p (String.◌∷◌ c s) ≡ begun p (String.◌∷◌ c (squeeze_from word s))
unfolding squeeze_from
at_letter p c s e = rw e refl

is_space-blank : is_space (code blank) ≡ true
unfolding is_space
is_space-blank = refl

-- A text that is squeezed has nothing left to squeeze.
squeeze_from_idem :
    (s : String)
    → (squeeze_from start (squeeze_from start s) ≡ squeeze_from start s)
      × (squeeze_from word (squeeze_from word s) ≡ squeeze_from word s)
      × (squeeze_from word (squeeze_from gap s) ≡ squeeze_from gap s)
squeeze_from_idem String.[] = unfold squeeze_from in (refl, refl, refl)
squeeze_from_idem (String.◌∷◌ c s) =
    let (a, b, g) = squeeze_from_idem s in
    elim (Bool-cases (is_space (code c))) [
      | inl e ↦ rw (at_blank start c s e, at_blank word c s e, at_blank gap c s e) (a, g, g)
      | inr e ↦
          let again = λ (p : Place).
            at_letter p c (squeeze_from word s) e ∙ ap (λ t. begun p (String.◌∷◌ c t)) b in
          rw (at_letter start c s e, at_letter word c s e, at_letter gap c s e)
            (
              again start,
              again word,
              at_blank word blank (String.◌∷◌ c (squeeze_from word s)) is_space-blank ∙ again gap,
            )
    ]

pub squeeze_idem : (s : String) → squeeze (squeeze s) ≡ squeeze s
unfolding squeeze
squeeze_idem s = (squeeze_from_idem s).0
