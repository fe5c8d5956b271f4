-- ===== src/Semantic/Loader/Placed.antt =====
-- A dictionary that loads: every table has its place, so that the names that the guard rails compare
-- with can be built.
use test_analyst_agent.Common.{
  String, true, false, ◌≡◌, refl, sym, ap, ◌∙◌, Option, none, some, List, [], ◌∷◌, upper,
  upper_idem, get, put, get-put, is_some, str_eq, eq_iff, arith, inl, inr, Bool-cases,
}
use mathlib.Core.Path.{subst}
use test_analyst_agent.Semantic.Models.{
  Table, Metric, Domain, SemanticModel, SemanticError, model_error, qualified, dotted,
}
use test_analyst_agent.Semantic.Loader.{
  Directory, Loaded, loaded, broken, add_tables, add_metrics, add_directory, add_directories, load,
  with_table, with_domain, nothing, validated, stop_on, go_on, table_errors,
}

-- The entry of a table: its key, and the domain that it leads to.
pub record Entry (m : SemanticModel) (k : String) (t : Table) : Type 0 where
  pub key : k ≡ upper t.name
  pub domain_name : String
  pub domain : Domain
  pub placed : get k m.table_domain ≡ some domain_name
  pub declared : get domain_name m.domains ≡ some domain

abbrev pub Placed : SemanticModel → Type 0
Placed m = (k : String) (t : Table) → get k m.tables ≡ some t → Entry m k t

abbrev PlacedAfter : Loaded → Type 0
PlacedAfter (loaded m) = Placed m
PlacedAfter (broken e) = Unit

Placed-nothing : Placed nothing
unfolding get
Placed-nothing k t h = absurd (ground arith)

some_inj : {A : Type 0} (a b : A) → some a ≡ some b → a ≡ b
some_inj a b h = cc

with_table-Placed :
    (d : Domain) (t : Table) (m : SemanticModel)
    → get d.name m.domains ≡ some d
    → Placed m
    → Placed (with_table d t m)
with_table-Placed d t m known p k x h = elim (Bool-cases (str_eq (upper t.name) k)) [
  | inl e ↦
      let same : upper t.name ≡ k = (eq_iff (upper t.name) k).0 e in
      let it : t ≡ x = some_inj t x (rw (get-put (upper t.name) k t m.tables, e) at h) in
      record {
        key = sym same ∙ ap (λ (y : Table). upper y.name) it;
        domain_name = d.name;
        domain = d;
        placed = rw (get-put (upper t.name) k d.name m.table_domain, e);
        declared = known;
      }
  | inr e ↦
      let old = p k x (rw (get-put (upper t.name) k t m.tables, e) at h) in
      record {
        key = old.key;
        domain_name = old.domain_name;
        domain = old.domain;
        placed = rw (get-put (upper t.name) k d.name m.table_domain, e) old.placed;
        declared = old.declared;
      }
]

add_tables-Placed :
    (d : Domain) (ts : List Table) (m : SemanticModel)
    → get d.name m.domains ≡ some d
    → Placed m
    → PlacedAfter (add_tables d ts m)
unfolding add_tables
add_tables-Placed d [] m known p = p
add_tables-Placed d (t ∷ ts) m known p = elim (Bool-cases (is_some (get (upper t.name) m.tables))) [
  | inl twice ↦ rw twice tt
  | inr new ↦
      rw new (add_tables-Placed d ts (with_table d t m) known (with_table-Placed d t m known p))
]

add_metrics-Placed :
    (xs : List Metric) (m : SemanticModel) → Placed m → PlacedAfter (add_metrics xs m)
unfolding add_metrics
add_metrics-Placed [] m p = p
add_metrics-Placed (x ∷ xs) m p = elim (Bool-cases (is_some (get x.name m.metrics))) [
  | inl twice ↦ rw twice tt
  | inr new ↦ rw new (
      add_metrics-Placed xs (record m { metrics = put x.name x m.metrics })
        (λ k t h.
          let e = p k t h in
          record {
            key = e.key;
            domain_name = e.domain_name;
            domain = e.domain;
            placed = e.placed;
            declared = e.declared;
          }))
]

with_domain-Placed :
    (d : Domain) (m : SemanticModel)
    → is_some (get d.name m.domains) ≡ false
    → Placed m
    → Placed (with_domain d m)
with_domain-Placed d m new p k t h =
    let e = p k t h in
    record {
      key = e.key;
      domain_name = e.domain_name;
      domain = e.domain;
      placed = e.placed;
      declared = elim (Bool-cases (str_eq d.name e.domain_name)) [
        | inl q ↦ absurd (other e q)
        | inr q ↦ rw (get-put d.name e.domain_name d m.domains, q) e.declared
      ];
    }
  where
    other : (e : Entry m k t) → str_eq d.name e.domain_name ≡ true → ⊥
    other e q =
        let there : get d.name m.domains ≡ some e.domain =
          ap (λ n. get n m.domains) ((eq_iff d.name e.domain_name).0 q) ∙ e.declared in
        let bad : is_some (get d.name m.domains) ≡ true = rw there in cc

go_on-Placed :
    (r : Loaded) (f : SemanticModel → Loaded)
    → PlacedAfter r
    → ((m : SemanticModel) → Placed m → PlacedAfter (f m))
    → PlacedAfter (go_on r f)
go_on-Placed (loaded m) f p h = h m p
go_on-Placed (broken e) f p h = tt

stop_on-Placed : (e : Option SemanticError) (r : Loaded) → PlacedAfter r → PlacedAfter (stop_on e r)
stop_on-Placed none r p = p
stop_on-Placed (some e) r p = tt

known_domain : (d : Domain) (m : SemanticModel) → get d.name (with_domain d m).domains ≡ some d
known_domain d m = rw (get-put d.name d.name d m.domains, (eq_iff d.name d.name).1 refl)

add_directory-Placed :
    (d : Directory) (m : SemanticModel) → Placed m → PlacedAfter (add_directory d m)
unfolding add_directory
add_directory-Placed d m p =
    stop_on-Placed (table_errors d) _ (elim (Bool-cases (is_some (get d.domain.name m.domains))) [
      | inl twice ↦ rw twice tt
      | inr new ↦ rw new (
          go_on-Placed (add_tables d.domain d.tables (with_domain d.domain m))
            (add_metrics d.metrics)
            (add_tables-Placed d.domain d.tables (with_domain d.domain m) (known_domain d.domain m)
              (with_domain-Placed d.domain m new p))
            (add_metrics-Placed d.metrics))
    ])

add_directories-Placed :
    (ds : List Directory) (m : SemanticModel) → Placed m → PlacedAfter (add_directories ds m)
unfolding add_directories
add_directories-Placed [] m p = p
add_directories-Placed (d ∷ ds) m p =
    go_on-Placed (add_directory d m) (add_directories ds) (add_directory-Placed d m p)
      (λ m' p'. add_directories-Placed ds m' p')

load-PlacedAfter : (ds : List Directory) → PlacedAfter (load ds)
unfolding load
load-PlacedAfter [] = tt
load-PlacedAfter (d ∷ ds) =
    go_on-Placed (add_directories (d ∷ ds) nothing) validated
      (add_directories-Placed (d ∷ ds) nothing Placed-nothing)
      (λ m p. stop_on-Placed (model_error m) (loaded m) p)

pub load-Placed : (ds : List Directory) (m : SemanticModel) → load ds ≡ loaded m → Placed m
load-Placed ds m h = subst PlacedAfter h (load-PlacedAfter ds)

qualified-by :
    (m : SemanticModel) (k : String) (t : Table) (d : Domain) (name : String)
    → get (upper k) m.tables ≡ some t
    → get (upper t.name) m.table_domain ≡ some name
    → get name m.domains ≡ some d
    → qualified m k ≡ some (dotted (upper d.db_schema) (upper t.name))
unfolding qualified
qualified-by m k t d name a b c = rw (a, b, c)

-- The name of a placed table can be built.
pub Placed-qualified :
    (m : SemanticModel) (k : String) (t : Table)
    → get k m.tables ≡ some t
    → (e : Entry m k t) → qualified m k ≡ some (dotted (upper e.domain.db_schema) (upper t.name))
Placed-qualified m k t there e =
    let same : upper k ≡ k = ap upper e.key ∙ upper_idem t.name ∙ sym e.key in
    let at_upper : get (upper k) m.tables ≡ some t = ap (λ j. get j m.tables) same ∙ there in
    let placed' : get (upper t.name) m.table_domain ≡ some e.domain_name =
      ap (λ j. get j m.table_domain) (sym e.key) ∙ e.placed in
    qualified-by m k t e.domain e.domain_name at_upper placed' e.declared

-- In a dictionary that loads, the name of every table can be qualified: the look-ups of the source do
-- not fail, and the result is the schema of the table's domain and the table's name in capitals.
pub load-qualified :
    (ds : List Directory) (m : SemanticModel) (k : String) (t : Table)
    → load ds ≡ loaded m
    → get k m.tables ≡ some t
    → (d : Domain) × (name : String) × (get k m.table_domain ≡ some name)
      × (get name m.domains ≡ some d)
      × (qualified m k ≡ some (dotted (upper d.db_schema) (upper t.name)))
load-qualified ds m k t h there =
    let e = load-Placed ds m h k t there in
    (e.domain, e.domain_name, e.placed, e.declared, Placed-qualified m k t there e)
