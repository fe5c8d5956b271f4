-- ===== src/Tests/Compare.antt =====
-- compare of compare.py on small tables, with whole numbers for the floats.
use test_analyst_agent.Common.{
  ℕ, ◌-◌, ◌*◌, ◌/◌, true, false, ◌≡◌, refl, none, some, [], ◌∷◌, ltb, leb, Memᴰ, if◌then◌else◌,
  update,
}
use test_analyst_agent.Common.Int.{pos, pos_part}
use test_analyst_agent.Evals.Compare.Values.{Floats, words, whole}
use test_analyst_agent.Evals.Compare.Tables.{Table}
use test_analyst_agent.Evals.Compare.Buckets.{fresh}
use test_analyst_agent.Evals.Compare.Verdict.{Expectation, compare}
use test_analyst_agent.Evals.Compare.Rules.{GoldRow, AnswerRow, compare-GoldRow, compare-AnswerRow}

abbrev pub apart : ℕ → ℕ → ℕ
apart a b = if ltb a b then b - a else a - b

-- Numbers from 0 in thousandths: a quotient is in thousandths too.
abbrev pub floats : Floats
floats = record {
  Float = ℕ;
  of_int = pos_part;
  of_text = λ s. none;
  is_nan = λ x. false;
  is_integer = λ x. true;
  int_text = λ x. "number";
  text = λ x. "number";
  whole_text = λ n. "number";
  abs = λ x. x;
  minus = apart;
  over = λ a b. a * 1000 / b;
  max = λ a b. if ltb a b then b else a;
  ltb = ltb;
  leb = leb;
  nought = 0;
  tiny = 1;
}

abbrev pub gold_table : Table floats
gold_table = record {
  columns = "CHANNEL" ∷ "REVENUE" ∷ [];
  rows = (words "03" ∷ whole (pos 1000) ∷ []) ∷ (words "04" ∷ whole (pos 2000) ∷ []) ∷ [];
}

-- Another order, another name, and one value off by a thousandth.
abbrev pub answer_table : Table floats
answer_table = record {
  columns = "SUM_2021" ∷ "CHANNEL" ∷ [];
  rows = (whole (pos 2002) ∷ words "04 " ∷ []) ∷ (whole (pos 1000) ∷ words "03" ∷ []) ∷ [];
}

abbrev pub expectation : Expectation floats
expectation = record {
  key_columns = "channel" ∷ [];
  measure_columns = "REVENUE" ∷ [];
  tolerance = 5;
}

pub answer_accepted : compare floats gold_table answer_table expectation ≡ some (fresh floats)
unfolding compare
answer_accepted = refl

compare-GoldRow_example :
    GoldRow floats gold_table answer_table expectation (whole (pos 2002) ∷ words "04 " ∷ [])
compare-GoldRow_example =
    compare-GoldRow floats gold_table answer_table expectation (fresh floats)
      (whole (pos 2002) ∷ words "04 " ∷ []) answer_accepted refl (Memᴰ.head refl)

compare-AnswerRow_example :
    AnswerRow floats gold_table answer_table expectation (words "04" ∷ whole (pos 2000) ∷ [])
compare-AnswerRow_example =
    compare-AnswerRow floats gold_table answer_table expectation (fresh floats)
      (words "04" ∷ whole (pos 2000) ∷ []) answer_accepted refl (Memᴰ.tail (Memᴰ.head refl))

-- A key found by its values in a column that carries the name of a measure.
abbrev clash_gold : Table floats
clash_gold = record { columns = "A" ∷ "X" ∷ []; rows = (words "1" ∷ words "1" ∷ []) ∷ [] }

abbrev clash_answer : Table floats
clash_answer = record { columns = "X" ∷ "B" ∷ []; rows = (words "1" ∷ words "1" ∷ []) ∷ [] }

abbrev clash_expectation : Expectation floats
clash_expectation = record { key_columns = "A" ∷ []; measure_columns = "X" ∷ []; tolerance = 5 }

clash_raises : compare floats clash_gold clash_answer clash_expectation ≡ none
unfolding compare update
clash_raises = refl
