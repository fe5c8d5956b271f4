-- ===== src/Tools/Describe/Named.antt =====
-- A table is found under the name that describe_schema shows it by.
use test_analyst_agent.Common.{
  ◌≡◌, refl, sym, ap, ◌∙◌, String, true, false, Option, none, some, List, [], ◌∷◌, Memᴰ, get, upper,
  upper_idem, up, is_some, inl, inr, Bool-cases, sort_by, eq_iff, str_eq,
}
use Prim.Native.String.{◌∷◌ as cons, ◌++◌ as str_append}
use Prim.Native.String.append
use Prim.Native.Char.{char}
use mathlib.Core.Path.{subst, ap₂}
use test_analyst_agent.Semantic.Models.{
  Table, Domain, SemanticModel, model_error, both, qualified, dotted,
}
use test_analyst_agent.Semantic.Loader.{Directory, load, loaded}
use test_analyst_agent.Semantic.Loader.Placed.{Placed, Entry, load-Placed, Placed-qualified}
use test_analyst_agent.Semantic.Loader.Named.{load-valid}
use test_analyst_agent.Tools.Describe.{
  payload, Description, Dictionary, RelationView, relation_views, metric_views, metric_key,
  values_of, table_named, dictionary, describe, describe_tables, without_schema, TableView,
  table_view,
}
use test_analyst_agent.Tools.Describe.Views.{table_view-some, all_metrics-some}
use test_analyst_agent.Tools.Describe.Answers.{found-Sound}

-- The name of a table of the schema SH, letter by letter.
abbrev sh_name : String → String
sh_name name = cons (char 83 tt) (cons (char 72 tt) (cons (char 46 tt) name))

dotted-sh : (name : String) → dotted "SH" name ≡ sh_name name
dotted-sh name =
    append.cons (char 83 tt) "H" (str_append "." name)
    ∙ ap (cons (char 83 tt)) (
        append.cons (char 72 tt) "" (str_append "." name)
        ∙ ap (cons (char 72 tt)) (
            append.nil (str_append "." name)
            ∙ append.cons (char 46 tt) "" name
            ∙ ap (cons (char 46 tt)) (append.nil name)))

upper-sh_name : (name : String) → upper (sh_name name) ≡ sh_name (upper name)
unfolding upper up
upper-sh_name name = refl

-- The key that the tool looks up for a qualified name.
key-dotted : (name : String) → upper name ≡ name → without_schema (upper (dotted "SH" name)) ≡ name
key-dotted name u =
    ap (λ s. without_schema (upper s)) (dotted-sh name) ∙ ap without_schema (upper-sh_name name) ∙ u

is_named : (name : String) → str_eq (dotted "SH" name) "" ≡ false
is_named name = elim (Bool-cases (str_eq (dotted "SH" name) "")) [
  | inl e ↦ absurd (letters name (sym (dotted-sh name) ∙ (eq_iff (dotted "SH" name) "").0 e))
  | inr e ↦ e
]
  where
    letters : (name : String) → sh_name name ≡ "" → ⊥
    letters name h = cc

is_some-some {ℓ} : {A : Type ℓ} (o : Option A) → is_some o ≡ true → (a : A) × (o ≡ some a)
is_some-some none h = cc
is_some-some (some a) h = (a, refl)

-- The reply with one table alone, under a name.
pub record Alone (m : SemanticModel) (k : String) (t : Table) (name : String) (reply : Description)
    : Type 0 where
  pub payload : Dictionary
  pub replied : reply ≡ dictionary payload
  pub view : TableView
  pub shows : table_view m (k, t) ≡ some view
  pub alone : payload.tables ≡ view ∷ []
  pub named : view.name ≡ name

named_view :
    (t : Table) (name : String) (rs : Option (List RelationView)) (v : TableView)
    → table_named t (some name) rs ≡ some v
    → v.name ≡ name
named_view t name none v h = cc
named_view t name (some rs) v h = sym (ap (λ (x : TableView). x.name) (view_inj _ v h))
  where
    view_inj : (a b : TableView) → some a ≡ some b → a ≡ b
    view_inj a b h = cc

found-Alone :
    (m : SemanticModel) (as_of : Option String) (k : String) (t : Table) (name : String)
    → Placed m
    → model_error m ≡ none
    → get k m.tables ≡ some t
    → qualified m k ≡ some name
    → Alone m k t name (describe_tables m as_of ((k, t) ∷ []))
unfolding describe_tables
found-Alone m as_of k t name p v there q =
    let s = found-Sound m k t v there (k, t) (Memᴰ.head refl) in
    let (view, e) = is_some-some (table_view m (k, t)) (table_view-some m (k, t) p s) in
    let (metrics, e') =
      is_some-some (metric_views m (sort_by metric_key (values_of m.metrics)))
        (all_metrics-some m p v) in
    record {
      payload = record { data_as_of = as_of; tables = view ∷ []; metrics = metrics };
      replied = ap₂ (λ a b. payload as_of (both a (some [])) b) e e';
      view = view;
      shows = e;
      alone = refl;
      named =
          named_view t name (relation_views m t.relations) view
            (ap (λ n. table_named t n (relation_views m t.relations)) (sym q) ∙ e);
    }

-- In a dictionary that loads, describe_schema finds a table of the schema SH under the qualified name
-- that it shows it by, and answers with this table alone, under the same name.
pub describe-Alone :
    (ds : List Directory) (m : SemanticModel) (as_of : Option String) (k : String) (t : Table)
    (d : Domain) (name : String)
    → load ds ≡ loaded m
    → get k m.tables ≡ some t
    → get k m.table_domain ≡ some name
    → get name m.domains ≡ some d
    → upper d.db_schema ≡ "SH"
    → Alone m k t (dotted "SH" k) (describe m as_of (some (dotted "SH" k)))
unfolding describe
describe-Alone ds m as_of k t d name h there placed declared sh =
    let p = load-Placed ds m h in
    let entry = p k t there in
    let key = ap upper entry.key ∙ upper_idem t.name ∙ sym entry.key in
    let placed_by : Entry m k t = record {
      key = entry.key;
      domain_name = name;
      domain = d;
      placed = placed;
      declared = declared;
    } in
    let by_name =
      Placed-qualified m k t there placed_by ∙ ap₂ (λ a b. some (dotted a b)) sh (sym entry.key) in
    let asked : describe m as_of (some (dotted "SH" k)) ≡ describe_tables m as_of ((k, t) ∷ []) =
      rw (is_named k, key-dotted k key, there) refl in
    subst (Alone m k t (dotted "SH" k)) (sym asked)
      (found-Alone m as_of k t (dotted "SH" k) p (load-valid ds m h) there by_name)
