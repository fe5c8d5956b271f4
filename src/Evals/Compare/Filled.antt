-- ===== src/Evals/Compare/Filled.antt =====
-- _bucket of compare.py where it finds no fault: each row is kept under its key.
use test_analyst_agent.Common.{
  ℕ, String, true, false, ◌&&◌, ◌≡◌, refl, sym, ap, ◌∙◌, ◌⊎◌, some, List, [], ◌∷◌, get, put,
  get-put, is_some, str_eq, eq_iff, Memᴰ, length, ltb, ◌==◌, arith, inl, inr, Bool-cases,
}
use mathlib.Core.List.Memᴰ
use mathlib.Core.Path.{subst}
use test_analyst_agent.Evals.Compare.Values.{Floats, Value}
use test_analyst_agent.Evals.Compare.Tables.{Table, index, row_key, map_some}
use test_analyst_agent.Evals.Compare.Naming.{Cells, Bucket}
use test_analyst_agent.Evals.Compare.Buckets.{
  Comparison, Side, gold, answer, fill, bucket, cells_of, duplicate, too_many, fill_or_refuse, at,
}
use test_analyst_agent.Evals.Compare.Steps.{and_then-some, some_pair}

module _ (F : Floats) where
  open F use {Float}

  -- A row in the dictionary of the rows.
  pub record Held (kp : List ℕ) (mp : List (String × ℕ)) (b : Bucket F) (row : List (Value Float))
      : Type 0 where
    pub key : String
    pub cells : Cells F
    pub keyed : row_key F kp row ≡ some key
    pub measured : cells_of F mp row ≡ some cells
    pub held : get key b ≡ some cells

  -- The row that a key comes from.
  pub record From (kp : List ℕ) (rows : List (List (Value Float))) (k : String) : Type 0 where
    pub row : List (Value Float)
    pub there : Memᴰ row rows
    pub keyed : row_key F kp row ≡ some k

  pub record Filled (kp : List ℕ) (mp : List (String × ℕ)) (rows : List (List (Value Float)))
      (b b' : Bucket F) : Type 0 where
    pub kept : (k : String) → is_some (get k b) ≡ true → get k b' ≡ get k b
    pub rows_in : (row : List (Value Float)) → Memᴰ row rows → Held kp mp b' row
    pub keys_from :
        (k : String) → is_some (get k b') ≡ true → (is_some (get k b) ≡ true) ⊎ From kp rows k

  -- A fault found once stays.
  fill-ok :
      (kp : List ℕ) (mp : List (String × ℕ)) (rows : List (List (Value Float))) (b b' : Bucket F)
      (r r' : Comparison F)
      → fill F kp mp rows b r ≡ some (b', r')
      → r'.ok ≡ true
      → r.ok ≡ true
  unfolding fill
  fill-ok kp mp [] b b' r r' h ok = ap (λ (c : Comparison F). c.ok) (some_pair b b' r r' h).1 ∙ ok
  fill-ok kp mp (row ∷ rows) b b' r r' h ok =
      let (key, e, h') = and_then-some (row_key F kp row) _ (b', r') h in
      elim (Bool-cases (is_some (get key b))) [
        | inl twice ↦
            let bad : (duplicate F key r).ok ≡ true =
              fill-ok kp mp rows b b' (duplicate F key r) r' (rw twice at h') ok in
            absurd (ground arith)
        | inr new ↦
            let (cells, e', h'') = and_then-some (cells_of F mp row) _ (b', r') (rw new at h') in
            fill-ok kp mp rows (put key cells b) b' r r' h'' ok
      ]

  Filled-nil :
      (kp : List ℕ) (mp : List (String × ℕ)) (b b' : Bucket F) → b ≡ b' → Filled kp mp [] b b'
  Filled-nil kp mp b b' e = record {
    kept = λ k h. ap (get k) (sym e);
    rows_in = λ row m. absurd (Memᴰ.not-nil m);
    keys_from = λ k h. inl (ap (λ d. is_some (get k d)) e ∙ h);
  }

  get-put_self :
      (key : String) (cells : Cells F) (b : Bucket F) → get key (put key cells b) ≡ some cells
  get-put_self key cells b = rw (get-put key key cells b, (eq_iff key key).1 refl)

  Filled-cons :
      (kp : List ℕ) (mp : List (String × ℕ)) (row : List (Value Float))
      (rows : List (List (Value Float))) (key : String) (cells : Cells F) (b b' : Bucket F)
      → row_key F kp row ≡ some key
      → cells_of F mp row ≡ some cells
      → is_some (get key b) ≡ false
      → Filled kp mp rows (put key cells b) b'
      → Filled kp mp (row ∷ rows) b b'
  Filled-cons kp mp row rows key cells b b' keyed measured new f = record {
    kept = λ k h. elim (Bool-cases (str_eq key k)) [
      | inl e ↦
          let clash : is_some (get k b) ≡ false =
            ap (λ j. is_some (get j b)) (sym ((eq_iff key k).0 e)) ∙ new in
          absurd (ground arith)
      | inr e ↦ f.kept k (rw (get-put key k cells b, e) h) ∙ rw (get-put key k cells b, e)
    ];
    rows_in = λ row' m. elim (Memᴰ.cases_cons m) [
      | inl e ↦ subst (Held kp mp b') (sym e) (record {
        key = key;
        cells = cells;
        keyed = keyed;
        measured = measured;
        held = f.kept key (ap is_some (get-put_self key cells b)) ∙ get-put_self key cells b;
      })
      | inr m' ↦ f.rows_in row' m'
    ];
    keys_from = λ k h. elim (f.keys_from k h) [
      | inr from ↦ inr (record { row = from.row; there = Memᴰ.tail from.there; keyed = from.keyed })
      | inl there ↦ elim (Bool-cases (str_eq key k)) [
        | inl e ↦ inr (record {
          row = row;
          there = Memᴰ.head refl;
          keyed = keyed ∙ ap some ((eq_iff key k).0 e);
        })
        | inr e ↦ inl (rw (get-put key k cells b, e) at there)
      ]
    ];
  }

  pub fill-Filled :
      (kp : List ℕ) (mp : List (String × ℕ)) (rows : List (List (Value Float))) (b b' : Bucket F)
      (r r' : Comparison F)
      → fill F kp mp rows b r ≡ some (b', r')
      → r'.ok ≡ true
      → Filled kp mp rows b b'
  unfolding fill
  fill-Filled kp mp [] b b' r r' h ok = Filled-nil kp mp b b' (some_pair b b' r r' h).0
  fill-Filled kp mp (row ∷ rows) b b' r r' h ok =
      let (key, e, h') = and_then-some (row_key F kp row) _ (b', r') h in
      elim (Bool-cases (is_some (get key b))) [
        | inl twice ↦
            let bad : (duplicate F key r).ok ≡ true =
              fill-ok kp mp rows b b' (duplicate F key r) r' (rw twice at h') ok in
            absurd (ground arith)
        | inr new ↦
            let (cells, e', h'') = and_then-some (cells_of F mp row) _ (b', r') (rw new at h') in
            Filled-cons kp mp row rows key cells b b' e e' new
              (fill-Filled kp mp rows (put key cells b) b' r r' h'' ok)
      ]

  -- What `_bucket` has done where it leaves the comparison in order.
  pub record Bucketed (t : Table F) (keys measures : List String) (b : Bucket F) : Type 0 where
    pub key_positions : List ℕ
    pub measure_positions : List (String × ℕ)
    pub keys_at : map_some (index F t) keys ≡ some key_positions
    pub measures_at : map_some (at F t) measures ≡ some measure_positions
    pub filled : Filled key_positions measure_positions t.rows [] b

  fill_or_refuse-Filled :
      (side : Side) (t : Table F) (kp : List ℕ) (mp : List (String × ℕ)) (b : Bucket F)
      (r r' : Comparison F)
      → fill_or_refuse F side t kp mp r ≡ some (b, r')
      → r'.ok ≡ true
      → Filled kp mp t.rows [] b
  fill_or_refuse-Filled side t kp mp b r r' h ok =
      elim (Bool-cases (length kp == 0 && ltb 1 (length t.rows))) [
        | inl many ↦
            absurd (
              refused side (some_pair [] b (too_many F side (length t.rows) r) r' (rw many at h)).1)
        | inr fine ↦ fill-Filled kp mp t.rows [] b r r' (rw fine at h) ok
      ]
    where
      refused : (side : Side) → too_many F side (length t.rows) r ≡ r' → ⊥
      refused gold e = let bad : false ≡ true = ap (λ (c : Comparison F). c.ok) e ∙ ok in cc
      refused answer e = let bad : false ≡ true = ap (λ (c : Comparison F). c.ok) e ∙ ok in cc

  pub bucket-Bucketed :
      (side : Side) (t : Table F) (keys measures : List String) (b : Bucket F) (r r' : Comparison F)
      → bucket F side t keys measures r ≡ some (b, r')
      → r'.ok ≡ true
      → Bucketed t keys measures b
  unfolding bucket
  bucket-Bucketed side t keys measures b r r' h ok =
      let (kp, e, h') = and_then-some (map_some (index F t) keys) _ (b, r') h in
      let (mp, e', h'') = and_then-some (map_some (at F t) measures) _ (b, r') h' in
      record {
        key_positions = kp;
        measure_positions = mp;
        keys_at = e;
        measures_at = e';
        filled = fill_or_refuse-Filled side t kp mp b r r' h'' ok;
      }
