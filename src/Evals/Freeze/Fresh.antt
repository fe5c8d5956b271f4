-- ===== src/Evals/Freeze/Fresh.antt =====
-- A run of freeze_gold.py that ends well, and the `--check` after it.
use test_analyst_agent.Common.{
  ℕ, String, Bool, true, false, not, ◌≡◌, ◌⊎◌, refl, sym, ap, ◌∙◌, Option, some, List, [], ◌∷◌,
  ◌++◌, Memᴰ, inl, inr, Bool-cases, eq_iff, str_eq, keep, find,
}
use mathlib.Core.List.Memᴰ
use test_analyst_agent.Database.{Cursor}
use test_analyst_agent.Common.Int.{ℤ}
use test_analyst_agent.Guards.Parser.{Parser}
use test_analyst_agent.Guards.Checks.{Guards}
use test_analyst_agent.Evals.Dataset.{Question, question_key}
use test_analyst_agent.Evals.Dataset.Valid.{Found}
use test_analyst_agent.Evals.Expected.{FrozenResult, Files, save_frozen, load_frozen, matches}
use test_analyst_agent.Evals.Freeze.{
  Failure, ended, broken_off, is_missing, is_stale, gold_of, check_frozen, freeze_one, freeze_all,
}
use test_analyst_agent.Evals.Freeze.Frozen.{Gold, freeze_one-Gold}
use test_analyst_agent.Evals.Freeze.Left.{
  Attempt-cases, load-save, at_frozen, at_failed, at_raised, if-true, if-false,
}

some_inj : (a b : Question) → some a ≡ some b → a ≡ b
some_inj a b h = cc

-- Two questions with one id are one question.
Found-same :
    (qs : List Question) → Found qs → (a b : Question) → Memᴰ a qs → Memᴰ b qs → a.id ≡ b.id → a ≡ b
Found-same qs found a b ma mb e =
    some_inj a b (sym (found a ma) ∙ ap (λ id. find question_key id qs) e ∙ found b mb)

longer : {A : Type 0} (xs : List A) (x : A) → xs ++ x ∷ [] ≡ [] → ⊥
longer [] x h = cc
longer (y ∷ ys) x h = cc

ended_inj : (a b : List Failure) → ended a ≡ ended b → a ≡ b
ended_inj a b h = cc

broken_apart : {fs : List Failure} → broken_off ≡ ended fs → ⊥
broken_apart h = cc

keep-none :
    (f : Question → Bool) (qs : List Question)
    → ((q : Question) → Memᴰ q qs → f q ≡ false)
    → keep f qs ≡ []
keep-none f [] h = refl
keep-none f (q ∷ qs) h = rw (h q (Memᴰ.head refl)) (keep-none f qs (λ x m. h x (Memᴰ.tail m)))

module _ (digest : String → String) where
  -- A question with a frozen result that its query matches.
  pub record Fresh (files : Files) (q : Question) : Type 0 where
    pub result : FrozenResult
    pub there : load_frozen q.id files ≡ some result
    pub same : matches digest result (gold_of digest q) ≡ true

  pub Fresh-check :
      (qs : List Question) (files : Files)
      → ((q : Question) → Memᴰ q qs → Fresh files q)
      → check_frozen digest qs files ≡ 0
  unfolding check_frozen
  Fresh-check qs files h =
      rw
        (
          keep-none (is_missing digest files) qs
              (λ q m. let f = h q m in rw (f.there, is_missing) refl),
          keep-none (is_stale digest files) qs
              (λ q m. let f = h q m in rw (f.there, is_stale) (ap not f.same)),
        )
        refl

  module _ (P : Parser) (g : Guards) (answer : String → Cursor) (took : String → ℕ)
      (stamp : String → String) (float_of : String → Option ℤ) (as_of : Option String) where
    ended-none :
        (qs : List Question) (files : Files) (fs : List Failure)
        → (freeze_all digest P g answer took stamp float_of as_of qs files fs).1 ≡ ended []
        → fs ≡ []
    ended-none [] files fs h = ended_inj fs [] (unfold freeze_all in h)
    ended-none (q ∷ qs) files fs h =
        elim (Attempt-cases (freeze_one digest P g answer took stamp float_of as_of q)) [
          | inl (r, e) ↦
              ended-none qs (save_frozen r files) fs
                (rw (at_frozen digest P g answer took stamp float_of as_of q qs files fs r e) at h)
          | inr (inl (f, e)) ↦ absurd (
              longer fs f (
                ended-none qs files (fs ++ f ∷ []) (
                  rw (at_failed digest P g answer took stamp float_of as_of q qs files fs f e) at
                    h)))
          | inr (inr e) ↦ absurd (
              broken_apart
                (rw (at_raised digest P g answer took stamp float_of as_of q qs files fs e) at h))
        ]

    Gold-Fresh :
        (q q' : Question) (r : FrozenResult) (files : Files)
        → q' ≡ q
        → Gold digest P g answer took stamp float_of as_of q' r
        → Fresh (save_frozen r files) q
    Gold-Fresh q q' r files e gold =
        let own = gold.own_id ∙ ap (λ (x : Question). x.id) e in
        let sql_of = ap (λ (x : Question). x.gold_sql) (sym e) ∙ gold.gold in
        record {
          result = r;
          there = load-save q.id r files ∙ if-true _ _ ((eq_iff r.question_id q.id).1 own);
          same = rw (sql_of, gold_of) gold.fresh;
        }

    Fresh-other :
        (q : Question) (r : FrozenResult) (files : Files)
        → str_eq r.question_id q.id ≡ false
        → Fresh files q
        → Fresh (save_frozen r files) q
    Fresh-other q r files other f = record {
      result = f.result;
      there = load-save q.id r files ∙ if-false _ _ other ∙ f.there;
      same = f.same;
    }

    -- A question stays fresh, or becomes it, when a result of a question is saved.
    Fresh-save :
        (all : List Question) (q' q : Question) (qs : List Question) (r : FrozenResult)
        (files : Files)
        → Found all
        → Memᴰ q' all
        → Memᴰ q all
        → Gold digest P g answer took stamp float_of as_of q' r
        → Memᴰ q (q' ∷ qs) ⊎ Fresh files q
        → Memᴰ q qs ⊎ Fresh (save_frozen r files) q
    Fresh-save all q' q qs r files found m' m gold now =
        elim (Bool-cases (str_eq r.question_id q.id)) [
          | inl own ↦
              let e = sym gold.own_id ∙ (eq_iff r.question_id q.id).0 own in
              inr (Gold-Fresh q q' r files (Found-same all found q' q m' m e) gold)
          | inr other ↦ elim now [
            | inl there ↦ elim (Memᴰ.cases_cons there) [
              | inl same ↦ inr (Gold-Fresh q q' r files (sym same) gold)
              | inr later ↦ inl later
            ]
            | inr f ↦ inr (Fresh-other q r files other f)
          ]
        ]

    pub freeze_all-Fresh :
        (all qs : List Question) (q : Question) (files : Files) (fs : List Failure)
        → Found all
        → ((x : Question) → Memᴰ x qs → Memᴰ x all)
        → Memᴰ q all
        → (freeze_all digest P g answer took stamp float_of as_of qs files fs).1 ≡ ended []
        → Memᴰ q qs ⊎ Fresh files q
        → Fresh (freeze_all digest P g answer took stamp float_of as_of qs files fs).0 q
    freeze_all-Fresh all [] q files fs found sub m h (inl there) = absurd (Memᴰ.not-nil there)
    freeze_all-Fresh all [] q files fs found sub m h (inr f) = unfold freeze_all in f
    freeze_all-Fresh all (q' ∷ qs) q files fs found sub m h now =
        let rest : (x : Question) → Memᴰ x qs → Memᴰ x all = λ x there. sub x (Memᴰ.tail there) in
        elim (Attempt-cases (freeze_one digest P g answer took stamp float_of as_of q')) [
          | inl (r, e) ↦
              let gold = freeze_one-Gold digest P g answer took stamp float_of as_of q' r e in
              let go = at_frozen digest P g answer took stamp float_of as_of q' qs files fs r e in
              let later =
                Fresh-save all q' q qs r files found (sub q' (Memᴰ.head refl)) m gold now in
              rw go
                (freeze_all-Fresh all qs q (save_frozen r files) fs found rest m (rw go at h) later)
          | inr (inl (f, e)) ↦ absurd (
              longer fs f (
                ended-none qs files (fs ++ f ∷ []) (
                  rw (at_failed digest P g answer took stamp float_of as_of q' qs files fs f e) at
                    h)))
          | inr (inr e) ↦ absurd (
              broken_apart
                (rw (at_raised digest P g answer took stamp float_of as_of q' qs files fs e) at h))
        ]
