-- ===== src/Config/Taken.antt =====
-- Where the settings of the server come from.
use test_analyst_agent.Common.{
  ℕ, String, ◌≡◌, refl, Option, none, some, get, is_blank, true, false, Bool-cases, inl, inr,
}
use mathlib.Core.Path.{subst}
use test_analyst_agent.Common.Int.{ℤ, pos}
use test_analyst_agent.Common.Decimal.{python_int}
use test_analyst_agent.Config

-- A number of the environment: its default where the variable is not set or blank, else what is written.
pub data Taken (env : Config.Environment) (name : String) (default : ℕ) : ℤ → Type 0 where
  unset : get name env ≡ none → Taken env name default (pos default)
  blank :
      (text : String)
      → get name env ≡ some text
      → is_blank text ≡ true
      → Taken env name default (pos default)
  written :
      (text : String) (z : ℤ)
      → get name env ≡ some text
      → is_blank text ≡ false
      → python_int text ≡ some z
      → Taken env name default z

value_inj {ℓ} : {A : Type ℓ} (a b : A) → Config.value a ≡ Config.value b → a ≡ b
value_inj a b h = cc

and_then-value {ℓ κ} :
    {A : Type ℓ} {B : Type κ} (r : Config.Read A) (f : A → Config.Read B) (b : B)
    → Config.and_then r f ≡ Config.value b
    → (a : A) × (r ≡ Config.value a) × (f a ≡ Config.value b)
and_then-value (Config.value a) f b h = (a, refl, h)
and_then-value (Config.failed e) f b h = cc

number_taken :
    (env : Config.Environment) (name : String) (default : ℕ) (z : ℤ) (text : String) (o : Option ℤ)
    → get name env ≡ some text
    → is_blank text ≡ false
    → python_int text ≡ o
    → Config.number o ≡ Config.value z
    → Taken env name default z
number_taken env name default z text none e b p h = cc
number_taken env name default z text (some y) e b p h =
    subst (Taken env name default) (value_inj y z h) (written text y e b p)

text_taken :
    (env : Config.Environment) (name : String) (default : ℕ) (z : ℤ) (o : Option String)
    → get name env ≡ o
    → Config.int_or_default default o ≡ Config.value z
    → Taken env name default z
text_taken env name default z none e h =
    subst (Taken env name default) (value_inj (pos default) z h) (unset e)
text_taken env name default z (some text) e h = elim (Bool-cases (is_blank text)) [
  | inl b ↦ subst (Taken env name default) (value_inj (pos default) z (rw b at h)) (blank text e b)
  | inr b ↦ number_taken env name default z text (python_int text) e b refl (rw b at h)
]

int_of-Taken :
    (env : Config.Environment) (name : String) (default : ℕ) (z : ℤ)
    → Config.int_of name default env ≡ Config.value z
    → Taken env name default z
unfolding Config.int_of
int_of-Taken env name default z h = text_taken env name default z (get name env) refl h

module _ {F : Type 0} (float : String → Option F) where
  -- The limits that the server starts with.
  pub record LimitsTaken (env : Config.Environment) (l : Config.EnvLimits float) : Type 0 where
    pub refill :
        float (Config.text_of float "LIMIT_REFILL_PER_MINUTE" "1" env) ≡ some l.refill_per_minute
    pub bucket : Taken env "LIMIT_BUCKET_SIZE" 5 l.bucket_size
    pub cap : Taken env "LIMIT_DAILY_CAP" 100 l.daily_cap
    pub per_user : Taken env "LIMIT_CONCURRENT_PER_USER" 2 l.max_concurrent_per_user
    pub total : Taken env "LIMIT_CONCURRENT_TOTAL" 6 l.max_concurrent_total
    pub rows : Taken env "LIMIT_MAX_ROWS" 1000 l.max_rows
    pub seconds : Taken env "LIMIT_QUERY_TIMEOUT_SECONDS" 30 l.query_timeout_seconds
    pub auto_rows : Taken env "POLICY_AUTO_MAX_ROWS" 200 l.auto_max_rows
    pub auto_tables : Taken env "POLICY_AUTO_MAX_TABLES" 3 l.auto_max_tables

  number-some : (o : Option F) (x : F) → Config.number o ≡ Config.value x → o ≡ some x
  number-some none x h = cc
  number-some (some y) x h = cc

  limits_of-Taken :
      (env : Config.Environment) (l : Config.EnvLimits float)
      → Config.limits_of float env ≡ Config.value l
      → LimitsTaken env l
  unfolding Config.limits_of
  limits_of-Taken env l h =
      let (a, e1, h1) =
        and_then-value
          (Config.number (float (Config.text_of float "LIMIT_REFILL_PER_MINUTE" "1" env))) _ l h in
      let (b, e2, h2) = and_then-value (Config.int_of "LIMIT_BUCKET_SIZE" 5 env) _ l h1 in
      let (c, e3, h3) = and_then-value (Config.int_of "LIMIT_DAILY_CAP" 100 env) _ l h2 in
      let (d, e4, h4) = and_then-value (Config.int_of "LIMIT_CONCURRENT_PER_USER" 2 env) _ l h3 in
      let (e, e5, h5) = and_then-value (Config.int_of "LIMIT_CONCURRENT_TOTAL" 6 env) _ l h4 in
      let (f, e6, h6) = and_then-value (Config.int_of "LIMIT_MAX_ROWS" 1000 env) _ l h5 in
      let (g, e7, h7) =
        and_then-value (Config.int_of "LIMIT_QUERY_TIMEOUT_SECONDS" 30 env) _ l h6 in
      let (i, e8, h8) = and_then-value (Config.int_of "POLICY_AUTO_MAX_ROWS" 200 env) _ l h7 in
      let (j, e9, h9) = and_then-value (Config.int_of "POLICY_AUTO_MAX_TABLES" 3 env) _ l h8 in
      subst (LimitsTaken env) (value_inj _ l h9) (record {
        refill = number-some _ a e1;
        bucket = int_of-Taken env "LIMIT_BUCKET_SIZE" 5 b e2;
        cap = int_of-Taken env "LIMIT_DAILY_CAP" 100 c e3;
        per_user = int_of-Taken env "LIMIT_CONCURRENT_PER_USER" 2 d e4;
        total = int_of-Taken env "LIMIT_CONCURRENT_TOTAL" 6 e e5;
        rows = int_of-Taken env "LIMIT_MAX_ROWS" 1000 f e6;
        seconds = int_of-Taken env "LIMIT_QUERY_TIMEOUT_SECONDS" 30 g e7;
        auto_rows = int_of-Taken env "POLICY_AUTO_MAX_ROWS" 200 i e8;
        auto_tables = int_of-Taken env "POLICY_AUTO_MAX_TABLES" 3 j e9;
      })

  -- Where the server starts, its limits are the written ones: each is its default where the variable is
  -- missing or blank, else the whole number that the variable spells; and its password is the one that
  -- the environment sets.
  pub from_env-Taken :
      (env : Config.Environment) (s : Config.Settings float)
      → Config.from_env float env ≡ Config.value s
      → (get "ORACLE_APP_USER_PASSWORD" env ≡ some s.oracle_password)
        × Taken env "MCP_PORT" 8080 s.port
        × LimitsTaken env s.limits
  unfolding Config.from_env
  from_env-Taken env s h =
      let (a, e1, h1) =
        and_then-value (Config.password_of (get "ORACLE_APP_USER_PASSWORD" env)) _ s h in
      let (b, e2, h2) = and_then-value (Config.int_of "MCP_PORT" 8080 env) _ s h1 in
      let (c, e3, h3) = and_then-value (Config.limits_of float env) _ s h2 in
      subst
        (λ (x : Config.Settings float).
          (get "ORACLE_APP_USER_PASSWORD" env ≡ some x.oracle_password)
          × Taken env "MCP_PORT" 8080 x.port
          × LimitsTaken env x.limits)
        (value_inj _ s h3)
        (
          password_there (get "ORACLE_APP_USER_PASSWORD" env) a e1,
          int_of-Taken env "MCP_PORT" 8080 b e2,
          limits_of-Taken env c e3,
        )
    where
      password_there :
          (o : Option String) (p : String) → Config.password_of o ≡ Config.value p → o ≡ some p
      password_there none p h = cc
      password_there (some t) p h = cc
