-- ===== src/Store/Limits/Calls.antt =====
-- Histories of take_token: calls by any analysts, one after another, each with its clock reading.
use test_analyst_agent.Common.{
  ℕ, ◌+◌, String, ◌≡◌, refl, ◌∙◌, inl, inr, Option, some, List, [], ◌∷◌, arith, str_eq, find,
  find-key, find-upsert, if◌then◌else◌, Option-cases,
}
use test_analyst_agent.Store.Rows.{Store, RateState, Outcome, done, raised}
use test_analyst_agent.Store.Limits.{
  RateLimits, Allowance, allowed, cap_reached, too_often, rate_key, save, take_row, take_token,
  state_of,
}

abbrev pub Calls : Type 0
Calls = List (String × ℕ)

-- The database after a call; one that raises leaves it as it was.
abbrev pub after {ℓ} : {A : Type ℓ} → Store → Outcome (Store × A) → Store
after s (done (s', a)) = s'
after s (raised e) = s

abbrev pub spent {ℓ} : {S : Type ℓ} → Outcome (S × Allowance) → ℕ
spent (done (s', allowed)) = 1
spent _ = 0

-- What a call by `v` counts for `u`.
abbrev pub tally : String → String → ℕ → ℕ
tally u v n = if str_eq v u then n else 0

-- The requests that `u` is granted in a history.
unfoldable pub granted_to : RateLimits → String → Calls → Store → ℕ
granted_to l u [] s = 0
granted_to l u ((v, now) ∷ calls) s =
    let r = take_token l v now s in tally u v (spent r) + granted_to l u calls (after s r)

abbrev pub row_of : String → Store → Option RateState
row_of u s = find rate_key u s.rate_states

-- The row that a call leaves for its own analyst.
abbrev pub row_after : Option RateState → Outcome (RateState × Allowance) → Option RateState
row_after old (done (st', a)) = some st'
row_after old (raised e) = old

-- A method keeps the analyst's name in the row.
take_row-user :
    (l : RateLimits) (now : ℕ) (st st' : RateState) (a : Allowance)
    → take_row l now st ≡ done (st', a)
    → st'.user_id ≡ st.user_id
unfolding take_row
take_row-user l now st st' a h = ground arith

state_of-user :
    (l : RateLimits) (v : String) (now : ℕ) (s : Store) → (state_of l v now s).user_id ≡ v
state_of-user l v now s = elim (Option-cases (find rate_key v s.rate_states)) [
  | inl e ↦ rw e
  | inr (st, e) ↦ rw e (find-key rate_key v s.rate_states st e)
]

row_of-save :
    (u v : String) (s : Store) (r : Outcome (RateState × Allowance))
    → ((st : RateState) (a : Allowance) → r ≡ done (st, a) → st.user_id ≡ v)
    → row_of u (after s (save s r)) ≡ (if str_eq v u then row_after (row_of u s) r else row_of u s)
row_of-save u v s (raised e) h = ground arith
row_of-save u v s (done (st, a)) h = rw (find-upsert rate_key u st s.rate_states, h st a refl)

-- A call changes the row of its own analyst alone.
pub row_of-take :
    (l : RateLimits) (u v : String) (now : ℕ) (s : Store)
    → row_of u (after s (take_token l v now s)) ≡ (
        if str_eq v u
        then row_after (row_of u s) (take_row l now (state_of l v now s))
        else row_of u s)
unfolding take_token
row_of-take l u v now s =
    row_of-save u v s (take_row l now (state_of l v now s))
      λ st a e. take_row-user l now (state_of l v now s) st a e ∙ state_of-user l v now s

pub spent-take :
    (l : RateLimits) (v : String) (now : ℕ) (s : Store)
    → spent (take_token l v now s) ≡ spent (take_row l now (state_of l v now s))
unfolding take_token
spent-take l v now s = spent-save s (take_row l now (state_of l v now s))
  where
    spent-save : (s : Store) (r : Outcome (RateState × Allowance)) → spent (save s r) ≡ spent r
    spent-save s (done (st, allowed)) = refl
    spent-save s (done (st, cap_reached n c)) = refl
    spent-save s (done (st, too_often n)) = refl
    spent-save s (raised e) = refl
