-- ===== src/Evals/Freeze/Frozen.antt =====
-- What freeze_gold.py leaves in a file of the gold answers.
use test_analyst_agent.Common.{
  ℕ, zero, suc, ◌≤◌, String, true, false, ◌≡◌, ◌≢◌, refl, sym, ap, ◌∙◌, Option, none, some, List,
  [], ◌∷◌, map, length, upper, eq_iff, arith, inl, inr, Bool-cases, ltb, min, ◌==◌,
}
use mathlib.Core.Path.{subst}
use test_analyst_agent.Store.Rows.{Cell}
use test_analyst_agent.Database
use test_analyst_agent.Database.{
  Rows, RunOutcome, Cursor, fetched, answered, timeout, refused, crashed, database_error,
  no_session,
}
use test_analyst_agent.Common.Int.{ℤ}
use test_analyst_agent.Guards.Parser.{Parser}
use test_analyst_agent.Guards.Checks.{Guards}
use test_analyst_agent.Guards.Verdict.{Verdict}
use test_analyst_agent.Guards.Run.{check}
use test_analyst_agent.Evals.Dataset.{Question}
use test_analyst_agent.Evals.Expected.{FrozenResult, matches, build}
use test_analyst_agent.Evals.Freeze.{
  frozen, failed, max_rows, plain, frozen_of, with_rows, with_verdict, with_sql, freeze_one,
  Failure,
}

take-all {ℓ} : {A : Type ℓ} (n : ℕ) (xs : List A) → length xs ≤ n → Database.take n xs ≡ xs
take-all zero [] h = refl
take-all zero (x ∷ xs) h = absurd (omega (arith, h))
take-all (suc n) [] h = refl
take-all (suc n) (x ∷ xs) h = ap (λ l. x ∷ l) (take-all n xs (omega (arith, h)))

not_cut : (a b : ℕ) → ltb a b ≡ false → b ≤ a
not_cut a b h = ground arith

length-map {ℓ κ} :
    {A : Type ℓ} {B : Type κ} (f : A → B) (xs : List A) → length (map f xs) ≡ length xs
length-map f [] = refl
length-map f (x ∷ xs) = ap suc (length-map f xs)

min-fits : (a b : ℕ) → b ≤ a → min a b ≡ b
min-fits a b h = omega (arith, h)

answered_inj : (a b : Rows) → answered a ≡ answered b → a ≡ b
answered_inj a b h = cc

is_frozen_inj : (a b : FrozenResult) → frozen a ≡ frozen b → a ≡ b
is_frozen_inj a b h = cc

-- What the cursor fetched for a run that answers.
run-fetched :
    (m d : ℕ) (c : Cursor) (rows : Rows)
    → Database.run m d c ≡ answered rows
    → (all : List (List Cell)) × (c ≡ fetched rows.columns all)
      × (Database.run m d (fetched rows.columns all) ≡ answered rows)
unfolding Database.run
run-fetched m d (fetched columns all) rows h =
    subst
      (λ cols.
        (rest : List (List Cell)) × (fetched columns all ≡ fetched cols rest)
        × (Database.run m d (fetched cols rest) ≡ answered rows))
      (ap (λ (r : Rows). r.columns) (answered_inj _ rows h)) (all, refl, h)
run-fetched m d (database_error code) rows h = ground arith
run-fetched m d no_session rows h = cc

module _ (digest : String → String) (P : Parser) (g : Guards) (answer : String → Cursor)
    (took : String → ℕ) (stamp : String → String) (float_of : String → Option ℤ)
    (as_of : Option String) where
  -- A frozen result that a question's own query gave, with all the rows that the database has for it.
  pub record Gold (q : Question) (r : FrozenResult) : Type 0 where
    pub own_id : r.question_id ≡ q.id
    pub sql : String
    pub gold : q.gold_sql ≡ some sql
    pub verdict : Verdict
    pub checked : check P g sql ≡ some verdict
    pub accepted : verdict.ok ≡ true
    pub columns : List String
    pub rows : List (List Cell)
    pub answered_with : answer verdict.sql ≡ fetched columns rows
    pub all_columns : r.columns ≡ map upper columns
    pub all_rows : r.rows ≡ map (map (plain float_of)) rows
    pub counted : r.row_count ≡ length rows
    pub some_rows : length rows ≢ 0
    pub fitting : length rows ≤ max_rows
    pub fresh : matches digest r sql ≡ true

  rows-frozen :
      (id sql : String) (o : RunOutcome) (r : FrozenResult)
      → with_rows digest P g answer took stamp float_of as_of id sql o ≡ frozen r
      → (rows : Rows) × (o ≡ answered rows)
        × (rows.row_count ≢ 0)
        × (rows.truncated ≡ false)
        × (frozen_of digest P g answer took stamp float_of as_of id sql rows ≡ r)
  rows-frozen id sql (answered rows) r h = elim (Bool-cases (rows.row_count == 0)) [
    | inl e ↦ absurd (clash (rw e at h))
    | inr e ↦ elim (Bool-cases rows.truncated) [
      | inl t ↦ absurd (clash (rw (e, t) at h))
      | inr t ↦ (rows, refl, (λ z. ground (arith, e, z)), t, is_frozen_inj _ r (rw (e, t) at h))
    ]
  ]
    where
      clash : {f : Failure} → failed f ≡ frozen r → ⊥
      clash e = cc
  rows-frozen id sql timeout r h = cc
  rows-frozen id sql refused r h = cc
  rows-frozen id sql crashed r h = cc

  verdict-frozen :
      (id sql : String) (o : Option Verdict) (r : FrozenResult)
      → with_verdict digest P g answer took stamp float_of as_of id sql o ≡ frozen r
      → (w : Verdict) × (o ≡ some w)
        × (w.ok ≡ true)
        × (with_rows digest P g answer took stamp float_of as_of id sql
              (Database.run max_rows (took w.sql) (answer w.sql))
            ≡ frozen r)
  verdict-frozen id sql none r h = cc
  verdict-frozen id sql (some w) r h = elim (Bool-cases w.ok) [
    | inl e ↦ (w, refl, e, rw e at h)
    | inr e ↦ cc
  ]

  sql-frozen :
      (id : String) (o : Option String) (r : FrozenResult)
      → with_sql digest P g answer took stamp float_of as_of id o ≡ frozen r
      → (sql : String) × (o ≡ some sql)
        × (w : Verdict) × (check P g sql ≡ some w)
        × (w.ok ≡ true)
        × (with_rows digest P g answer took stamp float_of as_of id sql
              (Database.run max_rows (took w.sql) (answer w.sql))
            ≡ frozen r)
  sql-frozen id none r h = cc
  sql-frozen id (some sql) r h =
      let (w, e, ok, h1) = verdict-frozen id sql (check P g sql) r h in (sql, refl, w, e, ok, h1)

  pub freeze_one-Gold :
      (q : Question) (r : FrozenResult)
      → freeze_one digest P g answer took stamp float_of as_of q ≡ frozen r
      → Gold q r
  unfolding freeze_one build matches
  freeze_one-Gold q r h =
      let (sql, e, w, checked, ok, h1) = sql-frozen q.id q.gold_sql r h in
      let text = w.sql in
      let (rows, ran, n, whole, same) = rows-frozen q.id sql _ r h1 in
      let (all, fetch, ran') = run-fetched max_rows (took text) (answer text) rows ran in
      let (a, b, c) = Database.run-answered max_rows (took text) rows.columns all rows ran' in
      let fits = not_cut max_rows (length all) (sym c ∙ whole) in
      let rows_all = a ∙ take-all max_rows all fits in
      let count_all : rows.row_count ≡ length all = b ∙ min-fits max_rows (length all) fits in
      record {
        own_id = sym (ap (λ (x : FrozenResult). x.question_id) same);
        sql = sql;
        gold = e;
        verdict = w;
        checked = checked;
        accepted = ok;
        columns = rows.columns;
        rows = all;
        answered_with = fetch;
        all_columns = sym (ap (λ (x : FrozenResult). x.columns) same);
        all_rows =
            sym (ap (λ (x : FrozenResult). x.rows) same) ∙ ap (map (map (plain float_of))) rows_all;
        counted =
            sym (ap (λ (x : FrozenResult). x.row_count) same)
            ∙ length-map (map (plain float_of)) rows.rows
            ∙ ap length rows_all;
        some_rows = λ z. n (count_all ∙ z);
        fitting = fits;
        fresh = (eq_iff r.fingerprint _).1 (sym (ap (λ (x : FrozenResult). x.fingerprint) same));
      }
