-- ===== src/Evals/Compare/Partners.antt =====
-- Each row of an accepted answer has its gold row, and each gold row its row of the answer.
use test_analyst_agent.Common.{
  ℕ, String, ◌≡◌, refl, sym, ap, ◌∙◌, Option, none, some, List, [], ◌∷◌, map, get, find, is_some,
  Memᴰ, All, upper, str_eq, eq_iff, inl, inr, Bool-cases,
}
use mathlib.Core.Path.{subst}
use test_analyst_agent.Evals.Compare.Values.{Floats, Value, compare_value}
use test_analyst_agent.Evals.Compare.Tables.{Table, index, row_key, and_then, map_some, get_elem?}
use test_analyst_agent.Evals.Compare.Naming.{Cells, Bucket, cell_of}
use test_analyst_agent.Evals.Compare.Buckets.{cells_of, at, pair_some}
use test_analyst_agent.Evals.Compare.Verdict.{Expectation, measure_mismatch}
use test_analyst_agent.Evals.Compare.Steps.{and_then-some, some_inj, cons_some-eq}
use test_analyst_agent.Evals.Compare.Filled.{Held}
use test_analyst_agent.Evals.Compare.Agreement.{Accepted}

pub All-of {ℓ κ} :
    {A : Type ℓ} (P : A → Type κ) (xs : List A) → ((x : A) → Memᴰ x xs → P x) → All P xs
All-of P [] h = tt
All-of P (x ∷ xs) h = (h x (Memᴰ.head refl), All-of P xs (λ y m. h y (Memᴰ.tail m)))

module _ (F : Floats) where
  open F use {Float}

  -- The cell of a row in a column, by the column's name.
  pub record Cell (t : Table F) (row : List (Value Float)) (c : String) (v : Value Float)
      : Type 0 where
    pub position : ℕ
    pub column : index F t c ≡ some position
    pub cell : get_elem? row position ≡ some v

  at-eq :
      (t : Table F) (c : String) (p : String × ℕ)
      → at F t c ≡ some p
      → (p.0 ≡ c) × (index F t c ≡ some p.1)
  at-eq t c p h =
      let (i, e, e') = and_then-some (index F t c) _ p h in
      let same : (c, i) ≡ p = some_inj (c, i) p e' in
      (sym (ap (λ (q : String × ℕ). q.0) same), e ∙ ap (λ (q : String × ℕ). some q.1) same)

  pair_some-eq :
      (c : String) (o : Option (Value Float)) (d : String × Value Float)
      → pair_some F c o ≡ some d
      → (c ≡ d.0) × (o ≡ some d.1)
  pair_some-eq c none d h = cc
  pair_some-eq c (some v) d h =
      let same : (c, v) ≡ d = some_inj (c, v) d h in
      (
        ap (λ (q : String × Value Float). q.0) same,
        ap (λ (q : String × Value Float). some q.1) same,
      )

  cells-Cell :
      (t : Table F) (row : List (Value Float)) (c : String) (v : Value Float)
      (measures : List String) (mp : List (String × ℕ)) (cells : Cells F)
      → map_some (at F t) measures ≡ some mp
      → cells_of F mp row ≡ some cells
      → get c cells ≡ some v
      → Cell t row c v
  unfolding get find
  cells-Cell t row c v [] mp cells h k g =
      let no_positions : [] ≡ mp = some_inj [] mp h in
      let k' : some [] ≡ some cells =
        subst (λ x. cells_of F x row ≡ some cells) (sym no_positions) k in
      let g' : none ≡ some v = subst (λ x. get c x ≡ some v) (sym (some_inj [] cells k')) g in cc
  cells-Cell t row c v (m ∷ ms) mp cells h k g =
      let (p, mp', e, h', q) = cons_some-eq (at F t m) (map_some (at F t) ms) mp h in
      let k' : cells_of F (p ∷ mp') row ≡ some cells =
        subst (λ x. cells_of F x row ≡ some cells) (sym q) k in
      let (d, cells', a, b, q') =
        cons_some-eq (pair_some F p.0 (get_elem? row p.1)) (cells_of F mp' row) cells k' in
      let g' : get c (d ∷ cells') ≡ some v = subst (λ x. get c x ≡ some v) (sym q') g in
      let (named, there) = at-eq t m p e in
      let (same, held) = pair_some-eq p.0 (get_elem? row p.1) d a in
      elim (Bool-cases (str_eq d.0 c)) [
        | inl here ↦ record {
          position = p.1;
          column = ap (index F t) (sym ((eq_iff d.0 c).0 here) ∙ sym same ∙ named) ∙ there;
          cell = held ∙ rw here at g';
        }
        | inr later ↦ cells-Cell t row c v ms mp' cells' h' b (rw later at g')
      ]

  -- Two cells that the comparison takes for the same answer.
  pub record Close (expected answer : Table F) (tolerance : Float) (key : String)
      (g a : List (Value Float)) (c : String) : Type 0 where
    pub gold_value : Value Float
    pub answer_value : Value Float
    pub gold_cell : Cell expected g c gold_value
    pub answer_cell : Cell answer a c answer_value
    pub close : compare_value F key c tolerance gold_value answer_value ≡ none

  -- Two rows with one key, and every measure close.
  pub record Partners (expected answer : Table F) (x : Expectation F) (g a : List (Value Float))
      : Type 0 where
    pub key : String
    pub gold_positions : List ℕ
    pub answer_positions : List ℕ
    pub gold_columns : map_some (index F expected) (map upper x.key_columns) ≡ some gold_positions
    pub answer_columns : map_some (index F answer) (map upper x.key_columns) ≡ some answer_positions
    pub gold_key : row_key F gold_positions g ≡ some key
    pub answer_key : row_key F answer_positions a ≡ some key
    pub measures : All (Close expected answer x.tolerance key g a) (map upper x.measure_columns)

  Held-Close :
      (expected answer : Table F) (x : Expectation F) (gold_rows answer_rows : Bucket F)
      (g a : List (Value Float)) (key c : String) (gs cs : Cells F) (mp mp' : List (String × ℕ))
      → map_some (at F expected) (map upper x.measure_columns) ≡ some mp
      → map_some (at F answer) (map upper x.measure_columns) ≡ some mp'
      → cells_of F mp g ≡ some gs
      → cells_of F mp' a ≡ some cs
      → get key gold_rows ≡ some gs
      → get key answer_rows ≡ some cs
      → measure_mismatch F x.tolerance gold_rows answer_rows key c ≡ some none
      → Close expected answer x.tolerance key g a c
  Held-Close expected answer x gold_rows answer_rows g a key c gs cs mp mp' h h' k k' held held'
        agrees =
      let (v, e, e') = and_then-some (cell_of F gold_rows key c) _ none agrees in
      let (w, e2, e3) = and_then-some (cell_of F answer_rows key c) _ none e' in
      record {
        gold_value = v;
        answer_value = w;
        gold_cell =
            cells-Cell expected g c v (map upper x.measure_columns) mp gs h k
              (sym (ap (λ o. and_then o (get c)) held) ∙ e);
        answer_cell =
            cells-Cell answer a c w (map upper x.measure_columns) mp' cs h' k'
              (sym (ap (λ o. and_then o (get c)) held') ∙ e2);
        close = some_inj _ none e3;
      }

  pub Held-Partners :
      (expected actual : Table F) (x : Expectation F) (h : Accepted F expected actual x)
      (g a : List (Value Float))
      (hg : Held F h.gold_bucketed.key_positions h.gold_bucketed.measure_positions h.gold_rows g)
      (ha : Held F h.answer_bucketed.key_positions h.answer_bucketed.measure_positions h.answer_rows
        a)
      → hg.key ≡ ha.key
      → Partners expected h.answer_table x g a
  Held-Partners expected actual x h g a hg ha same = record {
    key = hg.key;
    gold_positions = h.gold_bucketed.key_positions;
    answer_positions = h.answer_bucketed.key_positions;
    gold_columns = h.gold_bucketed.keys_at;
    answer_columns = h.answer_bucketed.keys_at;
    gold_key = hg.keyed;
    answer_key = ha.keyed ∙ ap some (sym same);
    measures = All-of _ (map upper x.measure_columns) (λ c m.
        Held-Close expected h.answer_table x h.gold_rows h.answer_rows g a hg.key c hg.cells
          ha.cells h.gold_bucketed.measure_positions h.answer_bucketed.measure_positions
          h.gold_bucketed.measures_at h.answer_bucketed.measures_at hg.measured ha.measured hg.held
          (ap (λ k. get k h.answer_rows) same ∙ ha.held)
          (h.tallied.agrees hg.key c (ap is_some hg.held) m));
  }
