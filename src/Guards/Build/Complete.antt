-- ===== src/Guards/Build/Complete.antt =====
-- The guard rails of a dictionary that loads.
use test_analyst_agent.Common.{
  ◌≡◌, refl, ℕ, String, true, Option, none, List, [], ◌∷◌, get, is_some, arith, inl, inr,
  Option-cases,
}
use test_analyst_agent.Semantic.Models.{
  Table, Relation, SemanticModel, model_error, each, relations_error, relation_error,
}
use test_analyst_agent.Semantic.Loader.{Directory, load, loaded}
use test_analyst_agent.Semantic.Loader.Placed.{Placed, load-Placed}
use test_analyst_agent.Semantic.Loader.Named.{
  keys_there, keys_there-all, there-qualified, target-qualified, allowed_in-some, masked_in-some,
  load-valid,
}
use test_analyst_agent.Guards.Parser.{Schema}
use test_analyst_agent.Guards.Build.{
  guards_of, schema_from, domain_of, relations_from, declared_from,
}

domain-some :
    (m : SemanticModel) (k : String)
    → Placed m
    → is_some (get k m.tables) ≡ true
    → is_some (domain_of m (get k m.table_domain)) ≡ true
domain-some m k p h = elim (Option-cases (get k m.tables)) [
  | inl e ↦ absurd (ground arith)
  | inr (t, e) ↦ let entry = p k t e in rw (entry.placed, entry.declared)
]

schema_from-some :
    (m : SemanticModel) (es : List (String × Table)) (schema : Schema)
    → Placed m
    → keys_there m.tables es ≡ true
    → is_some (schema_from m es schema) ≡ true
unfolding schema_from keys_there
schema_from-some m [] schema p h = refl
schema_from-some m ((k, t) ∷ es) schema p h =
    elim (Option-cases (domain_of m (get k m.table_domain))) [
      | inl e ↦ absurd (ground (arith, domain-some m k p))
      | inr (d, e) ↦ rw e (schema_from-some m es _ p (ground arith))
    ]

relations_from-some :
    (m : SemanticModel) (k : String) (t : Table) (rs : List Relation)
    (rest : Option (List (String × String)))
    → Placed m
    → is_some (get k m.tables) ≡ true
    → each (relation_error m.tables t) rs ≡ none
    → is_some rest ≡ true
    → is_some (relations_from m k rs rest) ≡ true
unfolding relations_from
relations_from-some m k t [] rest p there h ok = ok
relations_from-some m k t (r ∷ rs) rest p there h ok = ground (
  arith,
  there-qualified m k p there,
  target-qualified m t r p,
  relations_from-some m k t rs rest p there,
)

declared_from-some :
    (m : SemanticModel) (es : List (String × Table))
    → Placed m
    → keys_there m.tables es ≡ true
    → each (relations_error m.tables) es ≡ none
    → is_some (declared_from m es) ≡ true
unfolding declared_from keys_there
declared_from-some m [] p h v = refl
declared_from-some m ((k, t) ∷ es) p h v =
    relations_from-some m k t t.relations (declared_from m es) p (ground arith) (ground arith)
      (declared_from-some m es p (ground arith) (ground arith))

relations-valid :
    (m : SemanticModel) → model_error m ≡ none → each (relations_error m.tables) m.tables ≡ none
unfolding model_error
relations-valid m h = ground arith

-- For a dictionary that loads the guard rails can be built: no look-up of a domain, of a table or of
-- a relation's target fails.
pub load-guards :
    (ds : List Directory) (m : SemanticModel) (max_rows : ℕ)
    → load ds ≡ loaded m
    → is_some (guards_of m max_rows) ≡ true
unfolding guards_of
load-guards ds m max_rows h =
    let p = load-Placed ds m h in
    let keys = keys_there-all m.tables in
    let a = schema_from-some m m.tables [] p keys in
    let b = allowed_in-some m m.tables p keys in
    let c = masked_in-some m m.tables p keys in
    let d = declared_from-some m m.tables p keys (relations-valid m (load-valid ds m h)) in
    ground arith
