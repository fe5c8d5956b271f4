-- ===== src/Tools/Describe/Answers.antt =====
-- describe_schema over a dictionary that loads: every name that it builds is there.
use test_analyst_agent.Common.{
  ◌≡◌, refl, sym, find, eq_iff, String, Bool, true, false, Option, none, some, List, [], ◌∷◌, Memᴰ,
  get, upper, is_some, arith, inl, inr, Bool-cases, sort_by, Mem-sort_by, entry_key, str_eq,
}
use mathlib.Core.List.Memᴰ
use mathlib.Core.Path.{subst, ap₂}
use test_analyst_agent.Semantic.Models.{Table, SemanticModel, model_error}
use test_analyst_agent.Semantic.Loader.{Directory, load, loaded}
use test_analyst_agent.Semantic.Loader.Placed.{Placed, load-Placed}
use test_analyst_agent.Semantic.Loader.Named.{load-valid}
use test_analyst_agent.Tools.Describe.{
  Description, exception, describe, describe_tables, describe_found, without_schema, TableView,
  MetricView, payload,
}
use test_analyst_agent.Tools.Describe.Views.{Sound, valid-Sound, table_views-some, all_metrics-some}

-- The reply is the dictionary or names the tables that there are.
abbrev pub is_answer : Description → Bool
is_answer exception = false
is_answer _ = true

payload-answer :
    (as_of : Option String) (a : Option (List TableView)) (b : Option (List MetricView))
    → is_some a ≡ true
    → is_some b ≡ true
    → is_answer (payload as_of a b) ≡ true
payload-answer as_of (some a) (some b) h h' = refl
payload-answer as_of (some a) none h h' = cc
payload-answer as_of none b h h' = cc

tables-answer :
    (m : SemanticModel) (as_of : Option String) (es : List (String × Table))
    → Placed m
    → model_error m ≡ none
    → ((e : String × Table) → Memᴰ e es → Sound m e)
    → is_answer (describe_tables m as_of es) ≡ true
unfolding describe_tables
tables-answer m as_of es p v h =
    let a =
      table_views-some m (sort_by entry_key es) p (λ e i. h e (Mem-sort_by entry_key e es i)) in
    let b = all_metrics-some m p v in payload-answer as_of _ _ a b

get-Mem : (k : String) (t : Table) (d : List (String × Table)) → get k d ≡ some t → Memᴰ (k, t) d
unfolding get find
get-Mem k t [] h = absurd (ground arith)
get-Mem k t ((j, x) ∷ d) h = elim (Bool-cases (str_eq j k)) [
  | inl e ↦
      Memᴰ.head (ap₂ (λ a b. (a, b)) (sym ((eq_iff j k).0 e)) (sym (table_inj x t (rw e at h))))
  | inr e ↦ Memᴰ.tail (get-Mem k t d (rw e at h))
]
  where
    table_inj : (a b : Table) → some a ≡ some b → a ≡ b
    table_inj a b h = cc

-- A table that is found needs nothing that is not there.
pub found-Sound :
    (m : SemanticModel) (k : String) (t : Table)
    → model_error m ≡ none
    → get k m.tables ≡ some t
    → (e : String × Table) → Memᴰ e ((k, t) ∷ [])
    → Sound m e
found-Sound m k t v h e i = elim (Memᴰ.cases_cons i) [
  | inl same ↦ subst (Sound m) (sym same) (valid-Sound m (k, t) v (get-Mem k t m.tables h))
  | inr rest ↦ absurd (Memᴰ.not-nil rest)
]

found-answer :
    (m : SemanticModel) (as_of : Option String) (k : String) (o : Option Table)
    → Placed m
    → model_error m ≡ none
    → get k m.tables ≡ o
    → is_answer (describe_found m as_of k o) ≡ true
found-answer m as_of k none p v h = refl
found-answer m as_of k (some t) p v h =
    tables-answer m as_of ((k, t) ∷ []) p v (found-Sound m k t v h)

all-answer :
    (m : SemanticModel) (as_of : Option String)
    → Placed m
    → model_error m ≡ none
    → is_answer (describe_tables m as_of m.tables) ≡ true
all-answer m as_of p v = tables-answer m as_of m.tables p v (λ e i. valid-Sound m e v i)

-- describe_schema over a dictionary that loads ends in no exception, whatever table is asked for: every
-- name of a table, of a relation's target and of a metric's table can be built.
pub describe-answer :
    (ds : List Directory) (m : SemanticModel) (as_of table : Option String)
    → load ds ≡ loaded m
    → is_answer (describe m as_of table) ≡ true
unfolding describe
describe-answer ds m as_of none h = all-answer m as_of (load-Placed ds m h) (load-valid ds m h)
describe-answer ds m as_of (some table) h =
    let key = without_schema (upper table) in
    elim (Bool-cases (str_eq table "")) [
      | inl e ↦ rw e (all-answer m as_of (load-Placed ds m h) (load-valid ds m h))
      | inr e ↦ rw e (
          found-answer m as_of key (get key m.tables) (load-Placed ds m h) (load-valid ds m h) refl)
    ]
