-- ===== src/Evals/Expected/Respelled.antt =====
-- Which changes of a gold query a frozen result does not notice.
use test_analyst_agent.Common.{
  ℕ, String, true, ◌≡◌, ap, ◌∙◌, sym, Option, List, squeeze, upper, squeeze-upper, squeeze_idem,
  upper_idem, eq_iff, first_letters,
}
use test_analyst_agent.Store.Rows.{Cell}
use test_analyst_agent.Evals.Expected.{first_letters, sql_fingerprint, build, matches}

module _ (digest : String → String) where
  pub fingerprint-upper :
      (sql : String) → sql_fingerprint digest (upper sql) ≡ sql_fingerprint digest sql
  unfolding sql_fingerprint
  fingerprint-upper sql =
      ap (λ t. first_letters 16 (digest t))
        (ap upper (squeeze-upper sql) ∙ upper_idem (squeeze sql))

  pub fingerprint-squeeze :
      (sql : String) → sql_fingerprint digest (squeeze sql) ≡ sql_fingerprint digest sql
  unfolding sql_fingerprint
  fingerprint-squeeze sql = ap (λ t. first_letters 16 (digest (upper t))) (squeeze_idem sql)

  -- A result that is frozen for a query still matches the query with every run of blanks made one, and
  -- the query with every letter made a capital, the letters in its text literals included.
  pub matches-respelled :
      (id sql frozen_at : String) (columns : List String) (rows : List (List Cell))
      (as_of : Option String) (ms : ℕ)
      → (matches digest (build digest id sql columns rows as_of ms frozen_at) (squeeze sql) ≡ true)
        × (matches digest (build digest id sql columns rows as_of ms frozen_at) (upper sql) ≡ true)
  unfolding matches build
  matches-respelled id sql frozen_at columns rows as_of ms = (
    (eq_iff (sql_fingerprint digest sql) _).1 (sym (fingerprint-squeeze sql)),
    (eq_iff (sql_fingerprint digest sql) _).1 (sym (fingerprint-upper sql)),
  )
