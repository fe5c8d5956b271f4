-- ===== src/Evals/Compare/Agreement.antt =====
-- An answer that compare in compare.py accepts: its rows and the gold rows, one for one.
use test_analyst_agent.Common.{
  String, true, false, ◌≡◌, sym, ap, ◌∙◌, Option, some, List, [], ◌∷◌, ◌++◌, map, get, upper, inl,
  inr, Bool-cases,
}
use test_analyst_agent.Evals.Compare.Values.{Floats}
use test_analyst_agent.Evals.Compare.Tables.{Table, map_some}
use test_analyst_agent.Evals.Compare.Naming.{Naming, unnamed, Bucket, name_keys, name_measures}
use test_analyst_agent.Evals.Compare.Buckets.{Comparison, fresh, gold, answer, bucket}
use test_analyst_agent.Evals.Compare.Verdict.{
  Expectation, compare, stop_or, stop_or_go, lacking_columns, renamed_table,
}
use test_analyst_agent.Evals.Compare.Steps.{and_then-some, some_inj}
use test_analyst_agent.Evals.Compare.Filled.{Bucketed, bucket-Bucketed}
use test_analyst_agent.Evals.Compare.Tallied.{Tallied, tally-Tallied}

module _ (F : Floats) where
  open F use {Float}

  -- The way through `compare` that ends well: the answer under the names of the gold answer, and the
  -- rows of both.
  pub record Accepted (expected actual : Table F) (x : Expectation F) : Type 0 where
    pub naming : Naming
    pub answer_table : Table F
    pub gold_rows : Bucket F
    pub answer_rows : Bucket F
    pub renamed :
        renamed_table F actual (map upper x.key_columns ++ map upper x.measure_columns) naming
        ≡ some answer_table
    pub gold_bucketed :
        Bucketed F expected (map upper x.key_columns) (map upper x.measure_columns) gold_rows
    pub answer_bucketed :
        Bucketed F answer_table (map upper x.key_columns) (map upper x.measure_columns) answer_rows
    pub tallied : Tallied F x.tolerance (map upper x.measure_columns) gold_rows answer_rows

  stop_or-ok :
      (r c : Comparison F) (rest : Option (Comparison F))
      → stop_or F r rest ≡ some c
      → c.ok ≡ true
      → (r.ok ≡ true) × (rest ≡ some c)
  stop_or-ok r c rest h ok = elim (Bool-cases r.ok) [
    | inl e ↦ (e, simp e at h)
    | inr e ↦
        let same : r ≡ c = some_inj r c (simp e at h) in
        let bad : false ≡ true = sym e ∙ ap (λ (k : Comparison F). k.ok) same ∙ ok in cc
  ]

  stop_or_go-ok :
      (missing : List String) (r c : Comparison F) (rest : Option (Comparison F))
      → stop_or_go F missing r rest ≡ some c
      → c.ok ≡ true
      → rest ≡ some c
  stop_or_go-ok [] r c rest h ok = h
  stop_or_go-ok (m ∷ ms) r c rest h ok =
      let same : lacking_columns F (m ∷ ms) r ≡ c = some_inj (lacking_columns F (m ∷ ms) r) c h in
      let bad : false ≡ true = ap (λ (k : Comparison F). k.ok) same ∙ ok in cc

  pub compare-Accepted :
      (expected actual : Table F) (x : Expectation F) (c : Comparison F)
      → compare F expected actual x ≡ some c
      → c.ok ≡ true
      → Accepted expected actual x
  unfolding compare
  compare-Accepted expected actual x c h ok =
      let keys = map upper x.key_columns in
      let measures = map upper x.measure_columns in
      let (n, e1, h1) = and_then-some (name_keys F expected actual keys unnamed) _ c h in
      let h2 = stop_or_go-ok n.missing (fresh F) c _ h1 ok in
      let ((gold_rows, r), e3, h3) =
        and_then-some (bucket F gold expected keys measures (fresh F)) _ c h2 in
      let (r_ok, h4) = stop_or-ok r c _ h3 ok in
      let (actual_keys, e5, h5) = and_then-some (map_some (λ k. get k n.renamed) keys) _ c h4 in
      let (n', e6, h6) =
        and_then-some (name_measures F gold_rows actual actual_keys x.tolerance measures n) _ c
          h5 in
      let h7 = stop_or_go-ok n'.missing r c _ h6 ok in
      let (answer_table, e8, h8) =
        and_then-some (renamed_table F actual (keys ++ measures) n') _ c h7 in
      let ((answer_rows, r'), e9, h9) =
        and_then-some (bucket F answer answer_table keys measures r) _ c h8 in
      let (r'_ok, h10) = stop_or-ok r' c _ h9 ok in
      record {
        naming = n';
        answer_table = answer_table;
        gold_rows = gold_rows;
        answer_rows = answer_rows;
        renamed = e8;
        gold_bucketed = bucket-Bucketed F gold expected keys measures gold_rows (fresh F) r e3 r_ok;
        answer_bucketed =
            bucket-Bucketed F answer answer_table keys measures answer_rows r r' e9 r'_ok;
        tallied = tally-Tallied F x.tolerance measures gold_rows answer_rows r' c h10 ok;
      }
