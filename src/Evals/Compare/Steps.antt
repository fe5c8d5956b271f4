-- ===== src/Evals/Compare/Steps.antt =====
-- Steps that may raise, and lists that come out of them.
use test_analyst_agent.Common.{
  String, Bool, true, ◌&&◌, ◌≡◌, refl, sym, ap, ◌∙◌, Option, none, some, List, [], ◌∷◌, is_in,
  str_eq, eq_iff, Memᴰ, get, is_some, entry_key, map, arith, inl, inr, Bool-cases, find,
}
use mathlib.Core.List.Memᴰ
use mathlib.Core.Path.{subst}
use test_analyst_agent.Evals.Compare.Tables.{and_then, map_some, cons_some}

pub and_then-some {ℓ κ} :
    {A : Type ℓ} {B : Type κ} (o : Option A) (f : A → Option B) (b : B)
    → and_then o f ≡ some b
    → (a : A) × (o ≡ some a) × (f a ≡ some b)
and_then-some none f b h = cc
and_then-some (some a) f b h = (a, refl, h)

pub cons_some-eq {ℓ} :
    {A : Type ℓ} (o : Option A) (rest : Option (List A)) (ys : List A)
    → cons_some o rest ≡ some ys
    → (y : A) × (zs : List A) × (o ≡ some y) × (rest ≡ some zs) × (y ∷ zs ≡ ys)
cons_some-eq none rest ys h = cc
cons_some-eq (some y) none ys h = cc
cons_some-eq (some y) (some zs) ys h = (y, zs, refl, refl, cc)

pub map_some-Mem {ℓ κ} :
    {A : Type ℓ} {B : Type κ} (f : A → Option B) (x : A) (xs : List A) (ys : List B)
    → map_some f xs ≡ some ys
    → Memᴰ x xs
    → (y : B) × (f x ≡ some y) × Memᴰ y ys
map_some-Mem f x [] ys h m = absurd (Memᴰ.not-nil m)
map_some-Mem f x (z ∷ xs) ys h m =
    let (y, zs, a, b, c) = cons_some-eq (f z) (map_some f xs) ys h in
    elim (Memᴰ.cases_cons m) [
      | inl e ↦ (y, ap f e ∙ a, subst (λ l. Memᴰ y l) c (Memᴰ.head refl))
      | inr r ↦
          let (w, p, q) = map_some-Mem f x xs zs b r in
          (w, p, subst (λ l. Memᴰ w l) c (Memᴰ.tail q))
    ]

pub is_in-Mem : (x : String) (xs : List String) → is_in x xs ≡ true → Memᴰ x xs
unfolding is_in
is_in-Mem x [] h = cc
is_in-Mem x (y ∷ ys) h = elim (Bool-cases (str_eq y x)) [
  | inl e ↦ Memᴰ.head (sym ((eq_iff y x).0 e))
  | inr e ↦ Memᴰ.tail (is_in-Mem x ys (ground arith))
]

pub Mem-is_in : (x : String) (xs : List String) → Memᴰ x xs → is_in x xs ≡ true
unfolding is_in
Mem-is_in x [] m = absurd (Memᴰ.not-nil m)
Mem-is_in x (y ∷ ys) m = elim (Memᴰ.cases_cons m) [
  | inl e ↦ ground (arith, eq_iff y x)
  | inr r ↦ ground (arith, Mem-is_in x ys r)
]

-- A key that `d.get` finds is among the keys.
pub get-is_in {ℓ} :
    {V : Type ℓ} (k : String) (d : List (String × V))
    → is_some (get k d) ≡ true
    → is_in k (map entry_key d) ≡ true
unfolding get find is_in
get-is_in k [] h = cc
get-is_in k ((j, v) ∷ d) h = elim (Bool-cases (str_eq j k)) [
  | inl e ↦ rw e refl
  | inr e ↦ rw e (get-is_in k d (rw e at h))
]

pub some_pair {ℓ κ} :
    {A : Type ℓ} {B : Type κ} (a a' : A) (b b' : B)
    → ◌≡◌ {A = Option (A × B)} (some (a, b)) (some (a', b'))
    → (a ≡ a') × (b ≡ b')
some_pair a a' b b' h = (cc, cc)

pub some_inj {ℓ} : {A : Type ℓ} (a b : A) → some a ≡ some b → a ≡ b
some_inj a b h = cc

pub all_four : (a b c d : Bool) → (a && b && c && d) ≡ true → (b ≡ true) × (c ≡ true) × (d ≡ true)
all_four a b c d h = (ground arith, ground arith, ground arith)
