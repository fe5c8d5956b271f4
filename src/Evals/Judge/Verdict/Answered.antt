-- ===== src/Evals/Judge/Verdict/Answered.antt =====
-- An answer that passes judge.py.
use test_analyst_agent.Common.{
  String, Bool, true, false, ◌||◌, ◌≡◌, refl, ap, ◌∙◌, ◌⊎◌, Option, none, some, List, [], ◌∷◌, any,
  length, str_eq, eq_iff, ◌==◌, strip, arith, inl, inr, Bool-cases,
}
use test_analyst_agent.Evals.Compare.Values.{Floats, take_text}
use test_analyst_agent.Evals.Compare.Tables.{Table}
use test_analyst_agent.Evals.Compare.Steps.{and_then-some, some_inj}
use test_analyst_agent.Evals.Judge.Numbers.{Printing, numbers_in}
use test_analyst_agent.Evals.Judge.Rules.{
  Status, Check, check_of, check_answer, numbers_status, empty_status, moment_status, method_status,
  says, no_data_phrases, method_words, mentions, graded, wanted_numbers, carried,
}
use test_analyst_agent.Evals.Judge.Model.{Json, Reply}
use test_analyst_agent.Evals.Judge.Verdict.{Verdict, ok, is_failed, judge}
use test_analyst_agent.Evals.Judge.Verdict.Never.{with_checks-checks}

-- An empty result is called an absence of data.
abbrev pub NamesEmpty : {F : Floats} → Option (Table F) → String → Type 0
NamesEmpty none text = Unit
NamesEmpty (some t) text = (length t.rows == 0 ≡ false) ⊎ (says no_data_phrases text ≡ true)

abbrev pub NamesMoment : Option String → String → Type 0
NamesMoment none text = Unit
NamesMoment (some as_of) text = (as_of ≡ "") ⊎ (mentions (take_text 10 as_of) text ≡ true)

graded-passed : (id : String) (b : Bool) → is_failed (check_of id (graded b)) ≡ false → b ≡ true
graded-passed id true h = refl
graded-passed id false h = cc

moment_status-NamesMoment :
    (as_of : Option String) (text : String)
    → is_failed (check_of "data-as-of" (moment_status as_of text)) ≡ false
    → NamesMoment as_of text
unfolding moment_status
moment_status-NamesMoment none text h = tt
moment_status-NamesMoment (some d) text h = elim (Bool-cases (str_eq d "")) [
  | inl e ↦ inl ((eq_iff d "").0 e)
  | inr e ↦ inr (graded-passed "data-as-of" (mentions (take_text 10 d) text) (rw e at h))
]

module _ (F : Floats) (P : Printing F) where
  -- A number of the result stands in the answer, where there is one to look for.
  abbrev pub CarriesNumbers : Option (Table F) → List String → String → Type 0
  CarriesNumbers none measures text = Unit
  CarriesNumbers (some t) measures text =
      (length t.rows == 0 || length measures == 0 ≡ true)
      ⊎ ((wanted : List F.Float) × (wanted_numbers F P t measures ≡ some wanted)
          × (carried F P (numbers_in text) wanted ≡ true))

  pub record Answered (answer : String) (result : Option (Table F)) (as_of : Option String)
      (measures : List String) : Type 0 where
    pub says_something : str_eq (strip answer) "" ≡ false
    pub names_empty : NamesEmpty result (strip answer)
    pub carries_numbers : CarriesNumbers result measures (strip answer)
    pub names_moment : NamesMoment as_of (strip answer)
    pub says_how : says method_words (strip answer) ≡ true

  empty_status-NamesEmpty :
      (result : Option (Table F)) (text : String)
      → is_failed (check_of "empty-is-not-zero" (empty_status F P result text)) ≡ false
      → NamesEmpty result text
  unfolding empty_status
  empty_status-NamesEmpty none text h = tt
  empty_status-NamesEmpty (some t) text h = elim (Bool-cases (length t.rows == 0)) [
    | inl e ↦ inr (graded-passed "empty-is-not-zero" (says no_data_phrases text) (rw e at h))
    | inr e ↦ inl e
  ]

  numbers_status-CarriesNumbers :
      (result : Option (Table F)) (measures : List String) (text : String) (s : Status)
      → numbers_status F P result measures text ≡ some s
      → is_failed (check_of "numbers-from-the-result" s) ≡ false
      → CarriesNumbers result measures text
  unfolding numbers_status
  numbers_status-CarriesNumbers none measures text s h k = tt
  numbers_status-CarriesNumbers (some t) measures text s h k =
      elim (Bool-cases (length t.rows == 0 || length measures == 0)) [
        | inl e ↦ inl e
        | inr e ↦
            let (wanted, a, b) = and_then-some (wanted_numbers F P t measures) _ s (rw e at h) in
            let same : graded (carried F P (numbers_in text) wanted) ≡ s = some_inj _ s b in
            inr (
              wanted,
              a,
              graded-passed "numbers-from-the-result" (carried F P (numbers_in text) wanted)
                  (ap (λ x. is_failed (check_of "numbers-from-the-result" x)) same ∙ k),
            )
      ]

  none_failed :
      (a b c d : Check)
      → any is_failed (a ∷ b ∷ c ∷ d ∷ []) ≡ false
      → (is_failed a ≡ false)
        × (is_failed b ≡ false)
        × (is_failed c ≡ false)
        × (is_failed d ≡ false)
  none_failed a b c d h = (ground arith, ground arith, ground arith, ground arith)

  check_answer-Answered :
      (answer : String) (result : Option (Table F)) (as_of : Option String) (measures : List String)
      (cs : List Check)
      → check_answer F P answer result as_of measures ≡ some cs
      → any is_failed cs ≡ false
      → Answered answer result as_of measures
  unfolding check_answer method_status
  check_answer-Answered answer result as_of measures cs h k =
      elim (Bool-cases (str_eq (strip answer) "")) [
        | inl e ↦ let bad : true ≡ false = ap (any is_failed) (some_inj _ cs (rw e at h)) ∙ k in cc
        | inr e ↦
            let (s, a, b) =
              and_then-some (numbers_status F P result measures (strip answer)) _ cs (rw e at h) in
            let (p, q, r, t) =
              none_failed (check_of "empty-is-not-zero" (empty_status F P result (strip answer)))
                (check_of "numbers-from-the-result" s)
                (check_of "data-as-of" (moment_status as_of (strip answer)))
                (check_of "how-obtained" (method_status (strip answer)))
                (ap (any is_failed) (some_inj _ cs b) ∙ k) in
            record {
              says_something = e;
              names_empty = empty_status-NamesEmpty result (strip answer) p;
              carries_numbers = numbers_status-CarriesNumbers result measures (strip answer) s a q;
              names_moment = moment_status-NamesMoment as_of (strip answer) r;
              says_how = graded-passed "how-obtained" (says method_words (strip answer)) t;
            }
      ]

  -- An answer whose verdict is ok says something, calls an empty result an absence of data, carries a
  -- number of the result where measures are to be found in it, names the moment of the data where it
  -- is known, and says how it was obtained; the model has no part in this.
  pub judge-Answered :
      (loads : String → Option (Json F.Float)) (of_bool : Bool → F.Float) (answer : String)
      (result : Option (Table F)) (as_of : Option String) (measures : List String)
      (reply : Option (Reply F.Float)) (v : Verdict F P loads of_bool)
      → judge F P loads of_bool answer result as_of measures reply ≡ some v
      → ok F P loads of_bool v ≡ true
      → Answered answer result as_of measures
  unfolding judge
  judge-Answered loads of_bool answer result as_of measures reply v h k =
      check_answer-Answered answer result as_of measures v.checks
        (with_checks-checks F P loads of_bool reply (check_answer F P answer result as_of measures)
          v h)
        (ground arith)
