-- ===== src/Evals/Compare/Buckets.antt =====
-- Comparison and _bucket of compare.py.
use test_analyst_agent.Common.{
  ℕ, ◌-◌, String, Bool, true, false, ◌&&◌, Option, none, some, List, [], ◌∷◌, ◌++◌, get, put,
  is_some, length, ltb, str_eq, if◌then◌else◌, ◌==◌,
}
use test_analyst_agent.Evals.Compare.Values.{Floats, Value, Mismatch}
use test_analyst_agent.Evals.Compare.Tables.{Table, index, row_key, get_elem?, and_then, map_some}
use test_analyst_agent.Evals.Compare.Naming.{Cells, Bucket}

-- `key or "the only row"`, and the surplus of an answer that should have one row
pub data RowName : Type 0 where
  named : String → RowName
  only : RowName
  surplus : ℕ → RowName

abbrev pub row_name : String → RowName
row_name key = if str_eq key "" then only else named key

pub data Side : Type 0 where
  gold answer : Side

module _ (F : Floats) where
  open F use {Float}

  pub record Comparison : Type 0 where
    pub ok : Bool
    pub missing_columns : List String
    pub missing_rows : List RowName
    pub extra_rows : List RowName
    pub duplicate_keys : List RowName
    pub mismatches : List (Mismatch F)

  abbrev pub fresh : Comparison
  fresh = record {
    ok = true;
    missing_columns = [];
    missing_rows = [];
    extra_rows = [];
    duplicate_keys = [];
    mismatches = [];
  }

  abbrev pub duplicate : String → Comparison → Comparison
  duplicate key r = record r { ok = false; duplicate_keys = r.duplicate_keys ++ row_name key ∷ [] }

  abbrev pub too_many : Side → ℕ → Comparison → Comparison
  too_many gold n r = record r { ok = false }
  too_many answer n r = record r { ok = false; extra_rows = r.extra_rows ++ surplus (n - 1) ∷ [] }

  abbrev pub pair_some : String → Option (Value Float) → Option (String × Value Float)
  pair_some c none = none
  pair_some c (some v) = some (c, v)

  -- {c: row[position] for c, position in measure_positions.items()}
  abbrev pub cells_of : List (String × ℕ) → List (Value Float) → Option (Cells F)
  cells_of positions row =
      map_some (λ (p : String × ℕ). pair_some p.0 (get_elem? row p.1)) positions

  abbrev pub at : Table F → String → Option (String × ℕ)
  at t c = and_then (index F t c) (λ i. some (c, i))

  unfoldable pub fill :
      List ℕ
      → List (String × ℕ)
      → List (List (Value Float))
      → Bucket F
      → Comparison
      → Option (Bucket F × Comparison)
  fill kp mp [] b r = some (b, r)
  fill kp mp (row ∷ rows) b r = and_then (row_key F kp row) (λ key.
      let again = fill kp mp rows b (duplicate key r) in
      let added = and_then (cells_of mp row) (λ cells. fill kp mp rows (put key cells b) r) in
      if is_some (get key b) then again else added)

  abbrev pub fill_or_refuse :
      Side → Table F → List ℕ → List (String × ℕ) → Comparison → Option (Bucket F × Comparison)
  fill_or_refuse side t kp mp r =
      if length kp == 0 && ltb 1 (length t.rows)
      then some ([], too_many side (length t.rows) r)
      else fill kp mp t.rows [] r

  -- _bucket
  unfoldable pub bucket :
      Side → Table F → List String → List String → Comparison → Option (Bucket F × Comparison)
  unfolding fill
  bucket side t keys measures r =
      and_then (map_some (index F t) keys)
        (λ kp. and_then (map_some (at t) measures) (λ mp. fill_or_refuse side t kp mp r))
