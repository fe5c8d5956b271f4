-- ===== src/Tools/Describe/Views.antt =====
-- The views of describe_schema over a dictionary that loads can all be built.
use test_analyst_agent.Common.{
  ◌≡◌, refl, ap, ◌∙◌, String, true, Option, none, List, [], ◌∷◌, Memᴰ, get, upper, is_some, arith,
  inl, inr, sort_by, Mem-sort_by,
}
use mathlib.Core.List.Memᴰ
use test_analyst_agent.Semantic.Models.{
  Table, Relation, Metric, SemanticModel, SemanticError, model_error, each, relations_error,
  relation_error, metric_error,
}
use test_analyst_agent.Semantic.Loader.Placed.{Placed}
use test_analyst_agent.Semantic.Loader.Named.{
  keys_there, keys_there-all, there-qualified, target-qualified, qualified-upper,
}
use test_analyst_agent.Tools.Describe.{
  relation_views, table_view, table_views, metric_view, metric_views, metric_key, values_of,
}

each-Mem :
    {A : Type 0} (f : A → Option SemanticError) (x : A) (xs : List A)
    → each f xs ≡ none
    → Memᴰ x xs
    → f x ≡ none
each-Mem f x [] h m = absurd (Memᴰ.not-nil m)
each-Mem f x (y ∷ ys) h m = elim (Memᴰ.cases_cons m) [
  | inl same ↦ ap f same ∙ ground arith
  | inr rest ↦ each-Mem f x ys (ground arith) rest
]

-- What the views of a table need.
pub record Sound (m : SemanticModel) (entry : String × Table) : Type 0 where
  pub there : is_some (get entry.0 m.tables) ≡ true
  pub relations : relations_error m.tables entry ≡ none

keys-Mem :
    (tables es : List (String × Table)) (e : String × Table)
    → keys_there tables es ≡ true
    → Memᴰ e es
    → is_some (get e.0 tables) ≡ true
unfolding keys_there
keys-Mem tables [] e h m = absurd (Memᴰ.not-nil m)
keys-Mem tables ((k, t) ∷ es) e h m = elim (Memᴰ.cases_cons m) [
  | inl same ↦ ap (λ (x : String × Table). is_some (get x.0 tables)) same ∙ ground arith
  | inr rest ↦ keys-Mem tables es e (ground arith) rest
]

relations-none :
    (m : SemanticModel) → model_error m ≡ none → each (relations_error m.tables) m.tables ≡ none
unfolding model_error
relations-none m h = ground arith

metrics-none :
    (m : SemanticModel) → model_error m ≡ none → each (metric_error m.tables) m.metrics ≡ none
unfolding model_error
metrics-none m h = ground arith

pub valid-Sound :
    (m : SemanticModel) (e : String × Table) → model_error m ≡ none → Memᴰ e m.tables → Sound m e
valid-Sound m e h i = record {
  there = keys-Mem m.tables m.tables e (keys_there-all m.tables) i;
  relations = each-Mem (relations_error m.tables) e m.tables (relations-none m h) i;
}

relation_views-some :
    (m : SemanticModel) (t : Table) (rs : List Relation)
    → Placed m
    → each (relation_error m.tables t) rs ≡ none
    → is_some (relation_views m rs) ≡ true
relation_views-some m t [] p h = refl
relation_views-some m t (r ∷ rs) p h =
    ground (arith, target-qualified m t r p, relation_views-some m t rs p)

pub table_view-some :
    (m : SemanticModel) (e : String × Table)
    → Placed m
    → Sound m e
    → is_some (table_view m e) ≡ true
table_view-some m (k, t) p s =
    ground (arith, there-qualified m k p s.there, relation_views-some m t t.relations p s.relations)

pub table_views-some :
    (m : SemanticModel) (es : List (String × Table))
    → Placed m
    → ((e : String × Table) → Memᴰ e es → Sound m e)
    → is_some (table_views m es) ≡ true
table_views-some m [] p h = refl
table_views-some m (e ∷ es) p h = ground (
  arith,
  table_view-some m e p (h e (Memᴰ.head refl)),
  table_views-some m es p (λ x i. h x (Memᴰ.tail i)),
)

base-there :
    (m : SemanticModel) (x : Metric) (xs : List (String × Metric))
    → each (metric_error m.tables) xs ≡ none
    → Memᴰ x (values_of xs)
    → is_some (get (upper x.base_table) m.tables) ≡ true
base-there m x [] h i = absurd (Memᴰ.not-nil i)
base-there m x ((k, y) ∷ ys) h i = elim (Memᴰ.cases_cons i) [
  | inl same ↦ ap (λ (z : Metric). is_some (get (upper z.base_table) m.tables)) same ∙ ground arith
  | inr rest ↦ base-there m x ys (ground arith) rest
]

metric_view-some :
    (m : SemanticModel) (x : Metric)
    → Placed m
    → is_some (get (upper x.base_table) m.tables) ≡ true
    → is_some (metric_view m x) ≡ true
metric_view-some m x p h =
    ground (arith, there-qualified m (upper x.base_table) p h, qualified-upper m x.base_table)

metric_views-some :
    (m : SemanticModel) (xs : List Metric)
    → Placed m
    → ((x : Metric) → Memᴰ x xs → is_some (get (upper x.base_table) m.tables) ≡ true)
    → is_some (metric_views m xs) ≡ true
metric_views-some m [] p h = refl
metric_views-some m (x ∷ xs) p h = ground (
  arith,
  metric_view-some m x p (h x (Memᴰ.head refl)),
  metric_views-some m xs p (λ y i. h y (Memᴰ.tail i)),
)

pub all_metrics-some :
    (m : SemanticModel)
    → Placed m
    → model_error m ≡ none
    → is_some (metric_views m (sort_by metric_key (values_of m.metrics))) ≡ true
all_metrics-some m p h = metric_views-some m (sort_by metric_key (values_of m.metrics)) p (λ x i.
    base-there m x m.metrics (metrics-none m h) (Mem-sort_by metric_key x (values_of m.metrics) i))
