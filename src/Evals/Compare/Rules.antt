-- ===== src/Evals/Compare/Rules.antt =====
-- The rules of the comparison on rows: no row may be missing and none may be extra.
use test_analyst_agent.Common.{
  String, true, ◌≡◌, sym, ap, ◌∙◌, some, List, [], ◌++◌, map, get, find, is_some, Memᴰ, upper, inl,
  inr,
}
use mathlib.Core.Path.{subst}
use test_analyst_agent.Evals.Compare.Values.{Floats, Value}
use test_analyst_agent.Evals.Compare.Tables.{Table}
use test_analyst_agent.Evals.Compare.Naming.{Naming, Bucket}
use test_analyst_agent.Evals.Compare.Buckets.{Comparison}
use test_analyst_agent.Evals.Compare.Verdict.{Expectation, compare, renamed_table, reverse_of}
use test_analyst_agent.Evals.Compare.Steps.{and_then-some, some_inj}
use test_analyst_agent.Evals.Compare.Filled.{Held, Bucketed}
use test_analyst_agent.Evals.Compare.Agreement.{Accepted, compare-Accepted}
use test_analyst_agent.Evals.Compare.Partners.{Partners, Held-Partners}

module _ (F : Floats) where
  open F use {Float}

  -- The answer under the names of the gold answer: a column that a declared name was found for has
  -- that name, and the rows are the answer's.
  pub record Renamed (actual : Table F) (x : Expectation F) (t : Table F) : Type 0 where
    pub naming : Naming
    pub renamed :
        renamed_table F actual (map upper x.key_columns ++ map upper x.measure_columns) naming
        ≡ some t

  -- The gold row of a row of the answer, or the other way round.
  pub record GoldRow (expected actual : Table F) (x : Expectation F) (a : List (Value Float))
      : Type 0 where
    pub answer : Table F
    pub named : Renamed actual x answer
    pub row : List (Value Float)
    pub there : Memᴰ row expected.rows
    pub partners : Partners F expected answer x row a

  pub record AnswerRow (expected actual : Table F) (x : Expectation F) (g : List (Value Float))
      : Type 0 where
    pub answer : Table F
    pub named : Renamed actual x answer
    pub row : List (Value Float)
    pub there : Memᴰ row actual.rows
    pub partners : Partners F expected answer x g row

  same_rows :
      (actual t : Table F) (cs : List String) (n : Naming)
      → renamed_table F actual cs n ≡ some t
      → t.rows ≡ actual.rows
  same_rows actual t cs n h =
      let (d, e, e') = and_then-some (reverse_of F n.renamed cs []) _ t h in
      sym (ap (λ (x : Table F). x.rows) (some_inj _ t e'))

  -- A key of the dictionary comes from a row, which is held under it.
  pub record HeldUnder (t : Table F) (keys measures : List String) (b : Bucket F)
      (h : Bucketed F t keys measures b) (k : String) : Type 0 where
    pub row : List (Value Float)
    pub there : Memᴰ row t.rows
    pub held : Held F h.key_positions h.measure_positions b row
    pub under : held.key ≡ k

  find-HeldUnder :
      (t : Table F) (keys measures : List String) (b : Bucket F) (h : Bucketed F t keys measures b)
      (k : String)
      → is_some (get k b) ≡ true
      → HeldUnder t keys measures b h k
  unfolding get find
  find-HeldUnder t keys measures b h k there = elim (h.filled.keys_from k there) [
    | inl bad ↦ cc
    | inr from ↦
        let held = h.filled.rows_in from.row from.there in
        record {
          row = from.row;
          there = from.there;
          held = held;
          under = some_inj held.key k (sym held.keyed ∙ from.keyed);
        }
  ]

  Accepted-GoldRow :
      (expected actual : Table F) (x : Expectation F) (a : List (Value Float))
      → Accepted F expected actual x
      → Memᴰ a actual.rows
      → GoldRow expected actual x a
  Accepted-GoldRow expected actual x a h m =
      let rows = same_rows actual h.answer_table _ h.naming h.renamed in
      let ha = h.answer_bucketed.filled.rows_in a (subst (λ r. Memᴰ a r) (sym rows) m) in
      let found =
        find-HeldUnder expected _ _ h.gold_rows h.gold_bucketed ha.key
          (h.tallied.adds_none ha.key (ap is_some ha.held)) in
      record {
        answer = h.answer_table;
        named = record { naming = h.naming; renamed = h.renamed };
        row = found.row;
        there = found.there;
        partners = Held-Partners F expected actual x h found.row a found.held ha found.under;
      }

  Accepted-AnswerRow :
      (expected actual : Table F) (x : Expectation F) (g : List (Value Float))
      → Accepted F expected actual x
      → Memᴰ g expected.rows
      → AnswerRow expected actual x g
  Accepted-AnswerRow expected actual x g h m =
      let rows = same_rows actual h.answer_table _ h.naming h.renamed in
      let hg = h.gold_bucketed.filled.rows_in g m in
      let found =
        find-HeldUnder h.answer_table _ _ h.answer_rows h.answer_bucketed hg.key
          (h.tallied.covers hg.key (ap is_some hg.held)) in
      record {
        answer = h.answer_table;
        named = record { naming = h.naming; renamed = h.renamed };
        row = found.row;
        there = subst (λ r. Memᴰ found.row r) rows found.there;
        partners = Held-Partners F expected actual x h g found.row hg found.held (sym found.under);
      }

  -- Where the comparison is ok, every row of the answer has a gold row with its key, and in every
  -- measure the two values are the same within the tolerance: an extra row is an error.
  pub compare-GoldRow :
      (expected actual : Table F) (x : Expectation F) (c : Comparison F) (a : List (Value Float))
      → compare F expected actual x ≡ some c
      → c.ok ≡ true
      → Memᴰ a actual.rows
      → GoldRow expected actual x a
  compare-GoldRow expected actual x c a h ok m =
      Accepted-GoldRow expected actual x a (compare-Accepted F expected actual x c h ok) m

  -- Where the comparison is ok, every gold row has a row of the answer with its key, and in every
  -- measure the two values are the same within the tolerance: a missing row is an error.
  pub compare-AnswerRow :
      (expected actual : Table F) (x : Expectation F) (c : Comparison F) (g : List (Value Float))
      → compare F expected actual x ≡ some c
      → c.ok ≡ true
      → Memᴰ g expected.rows
      → AnswerRow expected actual x g
  compare-AnswerRow expected actual x c g h ok m =
      Accepted-AnswerRow expected actual x g (compare-Accepted F expected actual x c h ok) m
