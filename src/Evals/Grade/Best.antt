-- ===== src/Evals/Grade/Best.antt =====
-- best_comparison of grade_reference.py: the result that agrees, wherever it stands.
use test_analyst_agent.Common.{
  true, false, ◌≡◌, sym, ap, ◌∙◌, ◌⊎◌, some, List, [], ◌∷◌, Memᴰ, arith, inl, inr, Bool-cases,
}
use mathlib.Core.List.Memᴰ
use mathlib.Core.Path.{subst}
use test_analyst_agent.Evals.Compare.Values.{Floats}
use test_analyst_agent.Evals.Compare.Tables.{Table}
use test_analyst_agent.Evals.Compare.Buckets.{Comparison}
use test_analyst_agent.Evals.Compare.Verdict.{Expectation, compare}
use test_analyst_agent.Evals.Compare.Steps.{and_then-some}
use test_analyst_agent.Evals.Grade.Questions.{Compared, best_of, best_comparison}

module _ (F : Floats) (gold : Table F) (x : Expectation F) where
  -- A table that was compared and does not agree.
  pub record Differs (t : Table F) : Type 0 where
    pub comparison : Comparison F
    pub compared : compare F gold t x ≡ some comparison
    pub wrong : comparison.ok ≡ false

  -- What the loop chooses from the tables, when it chooses one of them.
  pub record Chosen (tables : List (Table F)) (c : Comparison F) (t : Table F) : Type 0 where
    pub among : Memᴰ t tables
    pub compared : compare F gold t x ≡ some c
    pub else_none : c.ok ≡ false → (t' : Table F) → Memᴰ t' tables → Differs t'

  some_inj : {a b : Compared F} → some (some a) ≡ some (some b) → a ≡ b
  some_inj h = cc

  by_first :
      (c1 : Comparison F) (t1 : Table F) (ts : List (Table F)) (c : Comparison F) (t : Table F)
      → ◌≡◌ {A = Compared F} (c1, t1) (c, t)
      → compare F gold t1 x ≡ some c1
      → (c.ok ≡ false → (t' : Table F) → Memᴰ t' (t1 ∷ ts) → Differs t')
      → Chosen (t1 ∷ ts) c t
  by_first c1 t1 ts c t same e others = record {
    among = Memᴰ.head (sym (ap (λ (p : Compared F). p.1) same));
    compared = subst (λ (p : Compared F). compare F gold p.1 x ≡ some p.0) same e;
    else_none = others;
  }

  -- The loop from a comparison that did not agree.
  best_of-later :
      (tables : List (Table F)) (b : Compared F) (c : Comparison F) (t : Table F)
      → b.0.ok ≡ false
      → best_of F gold x tables (some b) ≡ some (some (c, t))
      → ((c.ok ≡ true) × Memᴰ t tables × (compare F gold t x ≡ some c))
        ⊎ ((b ≡ (c, t)) × ((t' : Table F) → Memᴰ t' tables → Differs t'))
  unfolding best_of
  best_of-later [] b c t w h = inr (some_inj h, λ t' m. absurd (Memᴰ.not-nil m))
  best_of-later (t1 ∷ ts) b c t w h =
      let (c1, e, h') = and_then-some (compare F gold t1 x) _ _ h in
      elim (Bool-cases c1.ok) [
        | inl good ↦
            let same : ◌≡◌ {A = Compared F} (c1, t1) (c, t) = some_inj (rw good at h') in
            inl (
              sym (ap (λ (p : Compared F). p.0.ok) same) ∙ good,
              Memᴰ.head (sym (ap (λ (p : Compared F). p.1) same)),
              subst (λ (p : Compared F). compare F gold p.1 x ≡ some p.0) same e,
            )
        | inr bad ↦ elim (best_of-later ts b c t w (rw bad at h')) [
          | inl (good, m, q) ↦ inl (good, Memᴰ.tail m, q)
          | inr (same, others) ↦ inr (
            same,
            λ t' m. elim (Memᴰ.cases_cons m) [
              | inl here ↦
                  subst Differs (sym here) (record { comparison = c1; compared = e; wrong = bad })
              | inr there ↦ others t' there
            ],
          )
        ]
      ]

  -- best_comparison, where it chooses a result of the run: the comparison is the one with that result,
  -- and when it is not ok, every result of the run was compared and does not agree. So a result that
  -- agrees is found wherever it stands among the results.
  pub best_comparison-Chosen :
      (tables : List (Table F)) (c : Comparison F) (t : Table F)
      → best_comparison F gold x tables ≡ some (some (c, t))
      → Chosen tables c t
  unfolding best_comparison best_of
  best_comparison-Chosen [] c t h = absurd (ground arith)
  best_comparison-Chosen (t1 ∷ ts) c t h =
      let (c1, e, h') = and_then-some (compare F gold t1 x) _ _ h in
      elim (Bool-cases c1.ok) [
        | inl good ↦
            let same : ◌≡◌ {A = Compared F} (c1, t1) (c, t) = some_inj (rw good at h') in
            by_first c1 t1 ts c t same e (λ wrong.
              absurd (ground (arith, sym (ap (λ (p : Compared F). p.0.ok) same) ∙ good, wrong)))
        | inr bad ↦ elim (best_of-later ts (c1, t1) c t bad (rw bad at h')) [
          | inl (good, m, q) ↦ record {
            among = Memᴰ.tail m;
            compared = q;
            else_none = λ wrong. absurd (ground (arith, good, wrong));
          }
          | inr (same, others) ↦ by_first c1 t1 ts c t same e (λ wrong t' m.
              elim (Memᴰ.cases_cons m) [
                | inl here ↦
                    subst Differs (sym here) (record { comparison = c1; compared = e; wrong = bad })
                | inr there ↦ others t' there
              ])
        ]
      ]
