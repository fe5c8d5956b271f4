-- ===== src/Config.antt =====
-- mcp_server/src/sap_agent_mcp/config.py: the settings, read once from the environment. The environment
-- is a dictionary, and float() of Python an argument; a path stays as it is written.
pub mod Taken
use test_analyst_agent.Common.{
  ℕ, String, Bool, Option, none, some, List, [], ◌∷◌, keep, not, str_eq, get, is_blank, or_else,
  map, strip, ◌==◌, if◌then◌else◌,
}
use Prim.Native.String.{◌∷◌ as cons, [] as empty}
use Prim.Native.Char.{Char, code}
use test_analyst_agent.Common.Int.{ℤ, pos}
use test_analyst_agent.Common.Decimal.{python_int}

abbrev pub Environment : Type 0
Environment = List (String × String)

-- What ends the start of the server.
pub data StartError : Type 0 where
  no_password bad_number : StartError

pub data Read {ℓ} (A : Type ℓ) : Type ℓ where
  value : A → Read A
  failed : StartError → Read A

abbrev pub and_then {ℓ κ} : {A : Type ℓ} {B : Type κ} → Read A → (A → Read B) → Read B
and_then (value a) f = f a
and_then (failed e) f = failed e

abbrev pub number {ℓ} : {A : Type ℓ} → Option A → Read A
number none = failed bad_number
number (some n) = value n

abbrev pub int_or_default : ℕ → Option String → Read ℤ
int_or_default default none = value (pos default)
int_or_default default (some text) =
    if is_blank text then value (pos default) else number (python_int text)

-- _int
unfoldable pub int_of : String → ℕ → Environment → Read ℤ
unfolding get is_blank python_int
int_of name default env = int_or_default default (get name env)

abbrev with_letter : Char → List String → List String
with_letter c [] = []
with_letter c (p ∷ ps) = cons c p ∷ ps

-- text.split(",")
abbrev pub split_commas : String → List String
split_commas empty = empty ∷ []
split_commas (cons c s) =
    let rest = split_commas s in if code c == 44 then empty ∷ rest else with_letter c rest

abbrev pub non_empty : List String → List String → List String
non_empty default [] = default
non_empty default (p ∷ ps) = p ∷ ps

-- _paths
unfoldable pub paths_of : String → List String → Environment → List String
unfolding get strip
paths_of name default env =
    non_empty default
      (keep (λ p. not (str_eq p "")) (map strip (split_commas (or_else (get name env) ""))))

abbrev pub password_of : Option String → Read String
password_of none = failed no_password
password_of (some text) = value text

module _ {F : Type 0} (float : String → Option F) where
  pub record EnvLimits : Type 0 where
    pub refill_per_minute : F
    pub bucket_size : ℤ
    pub daily_cap : ℤ
    pub max_concurrent_per_user : ℤ
    pub max_concurrent_total : ℤ
    pub max_rows : ℤ
    pub query_timeout_seconds : ℤ
    pub auto_max_rows : ℤ
    pub auto_max_tables : ℤ

  pub record Settings : Type 0 where
    pub oracle_user : String
    pub oracle_password : String
    pub oracle_dsn : String
    pub semantic_sources : List String
    pub state_path : String
    pub host : String
    pub port : ℤ
    pub limits : EnvLimits

  abbrev pub text_of : String → String → Environment → String
  text_of name default env = or_else (get name env) default

  unfoldable pub limits_of : Environment → Read EnvLimits
  unfolding int_of get
  limits_of env = and_then (number (float (text_of "LIMIT_REFILL_PER_MINUTE" "1" env))) (λ refill.
      and_then (int_of "LIMIT_BUCKET_SIZE" 5 env) (λ bucket.
        and_then (int_of "LIMIT_DAILY_CAP" 100 env) (λ cap.
          and_then (int_of "LIMIT_CONCURRENT_PER_USER" 2 env) (λ per_user.
            and_then (int_of "LIMIT_CONCURRENT_TOTAL" 6 env) (λ total.
              and_then (int_of "LIMIT_MAX_ROWS" 1000 env) (λ rows.
                and_then (int_of "LIMIT_QUERY_TIMEOUT_SECONDS" 30 env) (λ seconds.
                  and_then (int_of "POLICY_AUTO_MAX_ROWS" 200 env) (λ auto_rows.
                    and_then (int_of "POLICY_AUTO_MAX_TABLES" 3 env) (λ auto_tables. value (record {
                      refill_per_minute = refill;
                      bucket_size = bucket;
                      daily_cap = cap;
                      max_concurrent_per_user = per_user;
                      max_concurrent_total = total;
                      max_rows = rows;
                      query_timeout_seconds = seconds;
                      auto_max_rows = auto_rows;
                      auto_max_tables = auto_tables;
                    }))))))))))

  -- Settings.from_env
  unfoldable pub from_env : Environment → Read Settings
  unfolding int_of limits_of get paths_of
  from_env env = and_then (password_of (get "ORACLE_APP_USER_PASSWORD" env)) (λ password.
      and_then (int_of "MCP_PORT" 8080 env) (λ port. and_then (limits_of env) (λ limits.
        value (record {
          oracle_user = text_of "ORACLE_APP_USER" "agent_ro" env;
          oracle_password = password;
          oracle_dsn = text_of "ORACLE_DSN" "127.0.0.1:1521/REPPDB1" env;
          semantic_sources = paths_of "SEMANTIC_SOURCES" ("semantic/sap" ∷ []) env;
          state_path = text_of "STATE_PATH" "state/sap-agent.db" env;
          host = text_of "MCP_HOST" "127.0.0.1" env;
          port = port;
          limits = limits;
        }))))
