-- ===== src/Evals/Compare/Naming.antt =====
-- _match_key_column and _match_measure_column of compare.py, and the loops that name the columns.
use test_analyst_agent.Common.{
  ℕ, String, Bool, true, false, Option, none, some, List, [], ◌∷◌, ◌++◌, map, is_in, get, put,
  sorted_texts, texts_eq, if◌then◌else◌,
}
use test_analyst_agent.Evals.Compare.Values.{Floats, Value, key_value, compare_value}
use test_analyst_agent.Evals.Compare.Tables.{
  Table, index, values, row_key, get_elem?, and_then, map_some,
}

-- The columns of the answer that have been given a name: which are taken, the dictionary from the
-- declared names, and the declared names that found none.
pub record Naming : Type 0 where
  pub taken : List String
  pub renamed : List (String × String)
  pub missing : List String

abbrev pub unnamed : Naming
unnamed = record { taken = []; renamed = []; missing = [] }

abbrev pub named_as : String → String → Naming → Naming
named_as c found n = record n { taken = found ∷ n.taken; renamed = put c found n.renamed }

abbrev place : String → Option (Option String) → Naming → Option Naming
place c none n = none
place c (some none) n = some (record n { missing = n.missing ++ c ∷ [] })
place c (some (some found)) n = some (named_as c found n)

-- By its name first, by its contents second.
unfoldable pub assign : List String → String → Option (Option String) → Naming → Option Naming
unfolding is_in put
assign columns c found n = if is_in c columns then some (named_as c c n) else place c found n

module _ (F : Floats) where
  open F use {Float}

  abbrev pub Cells : Type 0
  Cells = List (String × Value Float)

  abbrev pub Bucket : Type 0
  Bucket = List (String × Cells)

  abbrev same_keys : List String → List (Value Float) → Bool
  same_keys wanted vs = texts_eq (sorted_texts (map (key_value F) vs)) wanted

  match_in : Table F → List String → List String → List String → Option (Option String)
  unfolding is_in
  match_in actual taken wanted [] = some none
  match_in actual taken wanted (c ∷ cs) =
      let rest = match_in actual taken wanted cs in
      if is_in c taken
      then rest
      else and_then (values F actual c) (λ vs. if same_keys wanted vs then some (some c) else rest)

  -- _match_key_column
  unfoldable pub match_key_column :
      Table F → Table F → String → List String → Option (Option String)
  unfolding match_in sorted_texts
  match_key_column expected actual column taken =
      and_then (values F expected column)
        (λ vs. match_in actual taken (sorted_texts (map (key_value F) vs)) actual.columns)

  -- expected_rows[key][column]
  abbrev pub cell_of : Bucket → String → String → Option (Value Float)
  cell_of rows key column = and_then (get key rows) (get column)

  -- The cell of one row against the gold cell of its key; `false` ends the loop.
  abbrev row_agrees : Bucket → String → Float → ℕ → List (Value Float) → String → Option Bool
  row_agrees expected_rows column tolerance i row key = elim (get key expected_rows) [
    | none ↦ some false
    | some cells ↦ and_then (get column cells) (λ gold. and_then (get_elem? row i) (λ got.
        elim (compare_value F key column tolerance gold got) [
          | none ↦ some true
          | some m ↦ some false
        ]))
  ]

  rows_agree : Bucket → String → Float → List ℕ → ℕ → List (List (Value Float)) → Option Bool
  unfolding get compare_value row_key
  rows_agree expected_rows column tolerance positions i [] = some true
  rows_agree expected_rows column tolerance positions i (row ∷ rows) =
      let rest = rows_agree expected_rows column tolerance positions i rows in
      and_then (row_key F positions row) (λ key.
        and_then (row_agrees expected_rows column tolerance i row key)
          (λ b. if b then rest else some false))

  measure_in :
      Bucket
      → Table F
      → String
      → List ℕ
      → List String
      → Float
      → List String
      → Option (Option String)
  unfolding is_in rows_agree
  measure_in expected_rows actual column positions taken tolerance [] = some none
  measure_in expected_rows actual column positions taken tolerance (c ∷ cs) =
      let rest = measure_in expected_rows actual column positions taken tolerance cs in
      if is_in c taken
      then rest
      else and_then (index F actual c) (λ i.
        and_then (rows_agree expected_rows column tolerance positions i actual.rows)
          (λ b. if b then some (some c) else rest))

  -- _match_measure_column
  unfoldable pub match_measure_column :
      Bucket → Table F → String → List String → List String → Float → Option (Option String)
  unfolding measure_in
  match_measure_column expected_rows actual column keys taken tolerance =
      and_then (map_some (index F actual) keys) (λ positions.
        measure_in expected_rows actual column positions taken tolerance actual.columns)

  unfoldable pub name_keys : Table F → Table F → List String → Naming → Option Naming
  unfolding assign match_key_column
  name_keys expected actual [] n = some n
  name_keys expected actual (c ∷ cs) n =
      and_then (assign actual.columns c (match_key_column expected actual c n.taken) n)
        (name_keys expected actual cs)

  unfoldable pub name_measures :
      Bucket → Table F → List String → Float → List String → Naming → Option Naming
  unfolding assign match_measure_column
  name_measures expected_rows actual keys tolerance [] n = some n
  name_measures expected_rows actual keys tolerance (c ∷ cs) n =
      and_then
        (assign actual.columns c
          (match_measure_column expected_rows actual c keys n.taken tolerance) n)
        (name_measures expected_rows actual keys tolerance cs)
