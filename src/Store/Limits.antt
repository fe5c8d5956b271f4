-- ===== src/Store/Limits.antt =====
-- The rate limits of mcp_server/src/sap_agent_mcp/store.py: take_token, grant_bonus, rate_states.
-- The floats are those of Python, rounding included: a finite float is a whole multiple of the smallest
-- one, 2^-1074, and stands here as that multiple, so that floats compare as these numbers do, and an
-- infinite one as a number beyond all of them; what the arithmetic on them gives is an argument.
pub mod Calls
pub mod DailyCap
use test_analyst_agent.Common.{
  ℕ, ◌+◌, ◌-◌, ◌/◌, String, Bool, ◌&&◌, Option, none, some, ◌==◌, if◌then◌else◌, find, upsert,
  or_else, is_blank,
}
use test_analyst_agent.Common.Int.{ℤ, pos, ◌+ℤ◌, leb_ℤ, ltb_ℤ}
use test_analyst_agent.Store.Rows
use test_analyst_agent.Store.Rows.{
  Store, RateState, JournalEntry, Outcome, done, raised, value_error, zero_division, overflow_error,
  granted,
}
use test_analyst_agent.Store.Journal.{write}

abbrev pub rate_key : RateState → String
rate_key st = st.user_id

-- The arithmetic of Python's floats that take_token uses, on their multiples of 2^-1074.
pub record Floats : Type 0 where
  -- 1.0
  pub one : ℤ
  -- float(n)
  pub of_int : ℕ → ℤ
  -- a + b * c, rounded after each of the two
  pub add_times : ℤ → ℤ → ℤ → ℤ
  -- a - 1.0
  pub less_one : ℤ → ℤ
  -- total_seconds() / 60 of a difference of microseconds
  pub minutes : ℕ → ℤ
  -- int((1.0 - a) / b * 60), where b is not 0.0; `none` is the OverflowError of an infinite float
  pub wait : ℤ → ℤ → Option ℤ

abbrev pub day_of : ℕ → ℕ
day_of moment = moment / 86400000000

-- The limits of config.py that the bucket uses.
pub record RateLimits : Type 0 where
  pub floats : Floats
  pub refill_per_minute : ℤ
  pub bucket_size : ℕ
  pub daily_cap : ℕ

pub data Allowance : Type 0 where
  allowed : Allowance
  cap_reached : ℕ → ℤ → Allowance
  too_often : ℤ → Allowance

abbrev pub new_state : RateLimits → String → ℕ → RateState
new_state l user now = record {
  user_id = user;
  tokens = l.floats.of_int l.bucket_size;
  updated_at = now;
  day = day_of now;
  day_count = 0;
  bonus = pos 0;
}

-- A new day clears the count and the bonus.
abbrev pub roll_day : ℕ → RateState → RateState
roll_day now st =
    if st.day == day_of now
    then st
    else record st { day = day_of now; day_count = 0; bonus = pos 0 }

-- Python's min: the first argument where the second is not less.
abbrev min_float : ℤ → ℤ → ℤ
min_float a b = if ltb_ℤ b a then b else a

-- `now - updated_at` stops at 0, as the source's `max(0.0, …)` does.
abbrev pub refill : RateLimits → ℕ → RateState → RateState
refill l now st = record st {
  tokens =
      min_float (l.floats.of_int l.bucket_size)
        (l.floats.add_times st.tokens (l.floats.minutes (now - st.updated_at)) l.refill_per_minute);
  updated_at = now;
}

abbrev pub is_zero : ℤ → Bool
is_zero a = leb_ℤ a (pos 0) && leb_ℤ (pos 0) a

abbrev pub with_wait : RateState → Option ℤ → Outcome (RateState × Allowance)
with_wait st none = raised overflow_error
with_wait st (some seconds) = done (st, too_often (seconds +ℤ pos 1))

abbrev pub too_soon : RateLimits → RateState → Outcome (RateState × Allowance)
too_soon l st =
    if is_zero l.refill_per_minute
    then raised zero_division
    else with_wait st (l.floats.wait st.tokens l.refill_per_minute)

-- The two tests and the charge, on the row that has been rolled and refilled.
abbrev pub charge : RateLimits → RateState → Outcome (RateState × Allowance)
charge l st =
    let cap = pos l.daily_cap +ℤ st.bonus in
    if leb_ℤ cap (pos st.day_count)
    then done (st, cap_reached st.day_count cap)
    else if ltb_ℤ st.tokens l.floats.one
    then too_soon l st
    else done
        (record st { tokens = l.floats.less_one st.tokens; day_count = st.day_count + 1 }, allowed)

unfoldable pub take_row : RateLimits → ℕ → RateState → Outcome (RateState × Allowance)
unfolding ◌+ℤ◌
take_row l now st = charge l (refill l now (roll_day now st))

abbrev pub state_of : RateLimits → String → ℕ → Store → RateState
state_of l user now s = or_else (find rate_key user s.rate_states) (new_state l user now)

abbrev pub save : Store → Outcome (RateState × Allowance) → Outcome (Store × Allowance)
save s (raised e) = raised e
save s (done (st, a)) = done (record s { rate_states = upsert rate_key st s.rate_states }, a)

unfoldable pub take_token : RateLimits → String → ℕ → Store → Outcome (Store × Allowance)
take_token l user now s = save s (take_row l now (state_of l user now s))

abbrev pub granted_state : String → ℕ → RateState
granted_state user now = record {
  user_id = user;
  tokens = pos 0;
  updated_at = now;
  day = day_of now;
  day_count = 0;
  bonus = pos 0;
}

abbrev pub with_bonus : ℤ → RateState → RateState
with_bonus extra st = record st { bonus = st.bonus +ℤ extra }

abbrev pub grant_entry : String → String → ℕ → JournalEntry
grant_entry user reason now = record {
  at = now;
  user_id = user;
  tool = Rows.limits;
  outcome = granted;
  trace_id = none;
  proposal_id = none;
  reason = some reason;
}

unfoldable pub grant_bonus : String → ℤ → String → ℕ → Store → Outcome Store
unfolding write ◌+ℤ◌
grant_bonus user extra reason now s =
    let st =
      with_bonus extra (or_else (find rate_key user s.rate_states) (granted_state user now)) in
    if is_blank reason
    then raised value_error
    else done (
        write (grant_entry user reason now)
          (record s { rate_states = upsert rate_key st s.rate_states }))
