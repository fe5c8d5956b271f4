-- ===== src/Evals/Compare/Verdict.antt =====
-- compare of compare.py.
use test_analyst_agent.Common.{
  String, Bool, true, false, not, ◌&&◌, Option, none, some, List, [], ◌∷◌, ◌++◌, map, keep, get,
  put, is_some, upper, or_else, sorted_set, if◌then◌else◌, entry_key,
}
use test_analyst_agent.Evals.Compare.Values.{Floats, Mismatch, compare_value}
use test_analyst_agent.Evals.Compare.Tables.{Table, and_then, map_some}
use test_analyst_agent.Evals.Compare.Naming.{
  Naming, unnamed, Bucket, cell_of, name_keys, name_measures,
}
use test_analyst_agent.Evals.Compare.Buckets.{
  RowName, row_name, gold, answer, Comparison, fresh, bucket,
}

module _ (F : Floats) where
  open F use {Float}

  pub record Expectation : Type 0 where
    pub key_columns : List String
    pub measure_columns : List String
    pub tolerance : Float

  -- {renamed[c]: c for c in keys + measures}
  abbrev pub reverse_of :
      List (String × String)
      → List String
      → List (String × String)
      → Option (List (String × String))
  reverse_of renamed [] d = some d
  reverse_of renamed (c ∷ cs) d =
      and_then (get c renamed) (λ found. reverse_of renamed cs (put found c d))

  abbrev pub keys_of : Bucket F → List String
  keys_of rows = map entry_key rows

  abbrev pub keys_without : Bucket F → Bucket F → List String
  keys_without rows others = sorted_set (keep (λ k. not (is_some (get k others))) (keys_of rows))

  abbrev pub keys_with : Bucket F → Bucket F → List String
  keys_with rows others = sorted_set (keep (λ k. is_some (get k others)) (keys_of rows))

  abbrev pub measure_mismatch :
      Float → Bucket F → Bucket F → String → String → Option (Option (Mismatch F))
  measure_mismatch tolerance expected_rows actual_rows key c =
      and_then (cell_of F expected_rows key c) (λ expected.
        and_then (cell_of F actual_rows key c)
          (λ got. some (compare_value F key c tolerance expected got)))

  abbrev pub present {ℓ} : {A : Type ℓ} → List (Option A) → List A
  present [] = []
  present (none ∷ rest) = present rest
  present (some a ∷ rest) = a ∷ present rest

  abbrev pub key_mismatches :
      Float → Bucket F → Bucket F → List String → String → Option (List (Option (Mismatch F)))
  key_mismatches tolerance expected_rows actual_rows measures key =
      map_some (measure_mismatch tolerance expected_rows actual_rows key) measures

  abbrev pub flatten {ℓ} : {A : Type ℓ} → List (List A) → List A
  flatten [] = []
  flatten (xs ∷ rest) = xs ++ flatten rest

  abbrev pub is_empty {ℓ} : {A : Type ℓ} → List A → Bool
  is_empty [] = true
  is_empty (x ∷ xs) = false

  abbrev pub with_mismatches :
      List RowName → List RowName → Comparison F → List (List (Option (Mismatch F))) → Comparison F
  with_mismatches missing extra r found =
      let mismatches = present (flatten found) in
      record r {
        ok = r.ok && is_empty missing && is_empty extra && is_empty mismatches;
        missing_rows = r.missing_rows ++ missing;
        extra_rows = r.extra_rows ++ extra;
        mismatches = r.mismatches ++ mismatches;
      }

  -- The three loops over the keys.
  abbrev pub tally :
      Float → List String → Bucket F → Bucket F → Comparison F → Option (Comparison F)
  tally tolerance measures expected_rows actual_rows r =
      and_then
        (map_some (key_mismatches tolerance expected_rows actual_rows measures)
          (keys_with expected_rows actual_rows))
        (λ found. some (
          with_mismatches (map row_name (keys_without expected_rows actual_rows))
            (map row_name (keys_without actual_rows expected_rows)) r found))

  abbrev pub lacking_columns : List String → Comparison F → Comparison F
  lacking_columns missing r = record r { ok = false; missing_columns = missing }

  abbrev pub stop_or : Comparison F → Option (Comparison F) → Option (Comparison F)
  stop_or r rest = if r.ok then rest else some r

  abbrev pub stop_or_go : List String → Comparison F → Option (Comparison F) → Option (Comparison F)
  stop_or_go missing r rest = if is_empty missing then rest else some (lacking_columns missing r)

  -- The answer with the names of the gold answer.
  abbrev pub renamed_table : Table F → List String → Naming → Option (Table F)
  renamed_table actual declared n = and_then (reverse_of n.renamed declared []) (λ reverse.
      some (record {
        columns = map (λ c. or_else (get c reverse) c) actual.columns;
        rows = actual.rows;
      }))

  abbrev pub compare_rows :
      Float → Table F → List String → List String → Bucket F → Comparison F → Option (Comparison F)
  compare_rows tolerance actual keys measures expected_rows r =
      and_then (bucket F answer actual keys measures r)
        (λ (actual_rows, r'). stop_or r' (tally tolerance measures expected_rows actual_rows r'))

  abbrev pub with_measures :
      Float
      → Table F
      → List String
      → List String
      → Bucket F
      → Comparison F
      → Naming
      → Option (Comparison F)
  with_measures tolerance actual keys measures expected_rows r n = stop_or_go n.missing r (
      and_then (renamed_table actual (keys ++ measures) n)
        (λ actual'. compare_rows tolerance actual' keys measures expected_rows r))

  abbrev pub with_gold :
      Float
      → Table F
      → List String
      → List String
      → Naming
      → Bucket F
      → Comparison F
      → Option (Comparison F)
  with_gold tolerance actual keys measures n expected_rows r = stop_or r (
      and_then (map_some (λ c. get c n.renamed) keys) (λ actual_keys.
        and_then (name_measures F expected_rows actual actual_keys tolerance measures n)
          (with_measures tolerance actual keys measures expected_rows r)))

  abbrev pub with_keys :
      Float → Table F → Table F → List String → List String → Naming → Option (Comparison F)
  with_keys tolerance expected actual keys measures n = stop_or_go n.missing (fresh F) (
      and_then (bucket F gold expected keys measures (fresh F))
        (λ (expected_rows, r). with_gold tolerance actual keys measures n expected_rows r))

  -- compare
  unfoldable pub compare : Table F → Table F → Expectation → Option (Comparison F)
  unfolding name_keys name_measures bucket sorted_set get put upper
  compare expected actual x =
      let keys = map upper x.key_columns in
      let measures = map upper x.measure_columns in
      and_then (name_keys F expected actual keys unnamed)
        (with_keys x.tolerance expected actual keys measures)
