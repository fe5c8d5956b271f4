-- ===== src/Semantic/Loader/Named.antt =====
-- The look-ups of a dictionary that loads: what its tables and relations name is there.
use test_analyst_agent.Common.{
  ◌≡◌, refl, sym, ap, ◌∙◌, String, Bool, true, ◌&&◌, Option, none, some, List, [], ◌∷◌, upper,
  upper_idem, get, find, is_some, str_eq, eq_iff, arith, inl, inr, Bool-cases, Option-cases,
}
use mathlib.Core.Path.{subst}
use test_analyst_agent.Semantic.Models.{
  Table, Relation, SemanticModel, SemanticError, model_error, qualified, relation_error,
  target_error, allowed_in, masked_in,
}
use test_analyst_agent.Semantic.Loader.{
  Directory, Loaded, loaded, broken, add_directories, load, nothing, validated, stop_on, go_on,
}
use test_analyst_agent.Semantic.Loader.Placed.{Placed, Placed-qualified}

abbrev ValidAfter : Loaded → Type 0
ValidAfter (loaded m) = model_error m ≡ none
ValidAfter (broken e) = Unit

stop_on-ValidAfter :
    (m : SemanticModel) (o : Option SemanticError)
    → model_error m ≡ o
    → ValidAfter (stop_on o (loaded m))
stop_on-ValidAfter m none h = h
stop_on-ValidAfter m (some e) h = tt

go_on-ValidAfter : (r : Loaded) → ValidAfter (go_on r validated)
go_on-ValidAfter (loaded m) = stop_on-ValidAfter m (model_error m) refl
go_on-ValidAfter (broken e) = tt

load-ValidAfter : (ds : List Directory) → ValidAfter (load ds)
unfolding load
load-ValidAfter [] = tt
load-ValidAfter (d ∷ ds) = go_on-ValidAfter (add_directories (d ∷ ds) nothing)

pub load-valid :
    (ds : List Directory) (m : SemanticModel) → load ds ≡ loaded m → model_error m ≡ none
load-valid ds m h = subst ValidAfter h (load-ValidAfter ds)

-- The keys of some entries are keys of the tables.
unfoldable pub keys_there : List (String × Table) → List (String × Table) → Bool
keys_there tables [] = true
keys_there tables ((k, t) ∷ rest) = is_some (get k tables) && keys_there tables rest

get-more :
    (k : String) (e : String × Table) (d : List (String × Table))
    → is_some (get k d) ≡ true
    → is_some (get k (e ∷ d)) ≡ true
unfolding get find
get-more k (j, t) d h = elim (Bool-cases (str_eq j k)) [ inl e ↦ rw e refl | inr e ↦ rw e h ]

keys_there-more :
    (e : String × Table) (d es : List (String × Table))
    → keys_there d es ≡ true
    → keys_there (e ∷ d) es ≡ true
unfolding keys_there
keys_there-more e d [] h = refl
keys_there-more e d ((k, t) ∷ es) h = ground (arith, get-more k e d, keys_there-more e d es)

get-first :
    (k : String) (t : Table) (d : List (String × Table)) → is_some (get k ((k, t) ∷ d)) ≡ true
unfolding get find
get-first k t d = rw ((eq_iff k k).1 refl) refl

pub keys_there-all : (d : List (String × Table)) → keys_there d d ≡ true
unfolding keys_there
keys_there-all [] = refl
keys_there-all ((k, t) ∷ d) =
    ground (arith, get-first k t d, keys_there-more (k, t) d d (keys_there-all d))

pub there-qualified :
    (m : SemanticModel) (k : String)
    → Placed m
    → is_some (get k m.tables) ≡ true
    → is_some (qualified m k) ≡ true
there-qualified m k p h = elim (Option-cases (get k m.tables)) [
  | inl e ↦ absurd (ground arith)
  | inr (t, e) ↦ ap is_some (Placed-qualified m k t e (p k t e))
]

pub qualified-upper : (m : SemanticModel) (k : String) → qualified m (upper k) ≡ qualified m k
unfolding qualified
qualified-upper m k = rw (upper_idem k)

pub target-qualified :
    (m : SemanticModel) (t : Table) (r : Relation)
    → Placed m
    → relation_error m.tables t r ≡ none
    → is_some (qualified m r.to) ≡ true
unfolding relation_error
target-qualified m t r p h = elim (Option-cases (get (upper r.to) m.tables)) [
  | inl e ↦
      let bad : target_error t r none ≡ none = ap (target_error t r) (sym e) ∙ h in
      absurd (ground arith)
  | inr (x, e) ↦
      ap is_some (sym (qualified-upper m r.to)) ∙ there-qualified m (upper r.to) p (ap is_some e)
]

pub allowed_in-some :
    (m : SemanticModel) (es : List (String × Table))
    → Placed m
    → keys_there m.tables es ≡ true
    → is_some (allowed_in m es) ≡ true
unfolding allowed_in keys_there
allowed_in-some m [] p h = refl
allowed_in-some m ((k, t) ∷ es) p h = ground (arith, there-qualified m k p, allowed_in-some m es p)

pub masked_in-some :
    (m : SemanticModel) (es : List (String × Table))
    → Placed m
    → keys_there m.tables es ≡ true
    → is_some (masked_in m es) ≡ true
unfolding masked_in keys_there
masked_in-some m [] p h = refl
masked_in-some m ((k, t) ∷ es) p h = ground (arith, there-qualified m k p, masked_in-some m es p)
