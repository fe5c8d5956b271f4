-- ===== src/Store/Limits/DailyCap.antt =====
-- The daily cap of take_token over whole histories of one day.
use test_analyst_agent.Common.{
  ℕ, ◌+◌, ◌-◌, ◌≤◌, String, true, false, ◌≡◌, inl, inr, Option, none, some, [], ◌∷◌, arith, str_eq,
  eq_iff, ◌==◌, if◌then◌else◌, Bool-cases, Option-cases,
}
use test_analyst_agent.Common.Int.{ℤ, pos, pos_part, ◌+ℤ◌, leb_ℤ, ltb_ℤ}
use test_analyst_agent.Store.Rows.{Store, RateState}
use test_analyst_agent.Store.Limits.{
  RateLimits, day_of, take_row, take_token, state_of, charge, too_soon, with_wait, is_zero, refill,
  roll_day,
}
use test_analyst_agent.Store.Limits.Calls.{
  Calls, after, spent, tally, granted_to, row_of, row_after, row_of-take, spent-take,
}

-- The requests that are left on a day: the cap and the bonus, less the count of that day.
abbrev pub left_of : RateLimits → ℕ → Option RateState → ℕ
left_of l d none = l.daily_cap
left_of l d (some st) =
    if st.day == d then pos_part (pos l.daily_cap +ℤ st.bonus) - st.day_count else l.daily_cap

abbrev pub OnDay : ℕ → Calls → Type 0
OnDay d [] = Unit
OnDay d ((v, now) ∷ calls) = (day_of now ≡ d) × OnDay d calls

-- Whether there is a wait or an error, nothing is granted and the row is not charged.
with_wait-left :
    (l : RateLimits) (d : ℕ) (old : Option RateState) (st : RateState) (o : Option ℤ)
    → left_of l d (some st) ≤ left_of l d old
    → let r = with_wait st o in spent r + left_of l d (row_after old r) ≤ left_of l d old
unfolding ◌+ℤ◌
with_wait-left l d old st none h = omega arith
with_wait-left l d old st (some seconds) h = omega arith

too_soon-left :
    (l : RateLimits) (d : ℕ) (old : Option RateState) (st : RateState)
    → left_of l d (some st) ≤ left_of l d old
    → let r = too_soon l st in spent r + left_of l d (row_after old r) ≤ left_of l d old
too_soon-left l d old st h = elim (Bool-cases (is_zero l.refill_per_minute)) [
  | inl e ↦ rw e (omega arith)
  | inr e ↦ rw e (with_wait-left l d old st (l.floats.wait st.tokens l.refill_per_minute) h)
]

charge-left :
    (l : RateLimits) (d : ℕ) (old : Option RateState) (st : RateState)
    → (st.day == d) ≡ true
    → left_of l d (some st) ≤ left_of l d old
    → let r = charge l st in spent r + left_of l d (row_after old r) ≤ left_of l d old
charge-left l d old st day h =
    elim (Bool-cases (leb_ℤ (pos l.daily_cap +ℤ st.bonus) (pos st.day_count))) [
      | inl full ↦ rw full (omega arith)
      | inr free ↦ elim (Bool-cases (ltb_ℤ st.tokens l.floats.one)) [
        | inl soon ↦ rw (free, soon) (too_soon-left l d old st h)
        | inr token ↦ rw (free, token) (charged-left l d st day free h)
      ]
    ]
  where
    charged-left :
        (l : RateLimits) (d : ℕ) (st : RateState)
        → (st.day == d) ≡ true
        → leb_ℤ (pos l.daily_cap +ℤ st.bonus) (pos st.day_count) ≡ false
        → left_of l d (some st) ≤ left_of l d old
        → 1
            + left_of l d (
                some (record st {
                  tokens = l.floats.less_one st.tokens;
                  day_count = st.day_count + 1;
                }))
          ≤ left_of l d old
    charged-left l d st day free h = ground arith

rolled-left :
    (l : RateLimits) (d now : ℕ) (st : RateState)
    → day_of now ≡ d
    → ((roll_day now st).day == d ≡ true)
      × (left_of l d (some (roll_day now st)) ≡ left_of l d (some st))
unfolding ◌+ℤ◌
rolled-left l d now st e = ground arith

take_row-left :
    (l : RateLimits) (d now : ℕ) (old : Option RateState) (st : RateState)
    → left_of l d (some st) ≡ left_of l d old
    → day_of now ≡ d
    → let r = take_row l now st in spent r + left_of l d (row_after old r) ≤ left_of l d old
unfolding take_row
take_row-left l d now old st e h =
    let (day, same) = rolled-left l d now st h in
    charge-left l d old (refill l now (roll_day now st)) day (omega (arith, same, e))

state_of-left :
    (l : RateLimits) (u : String) (d now : ℕ) (s : Store)
    → day_of now ≡ d
    → left_of l d (some (state_of l u now s)) ≡ left_of l d (row_of u s)
unfolding ◌+ℤ◌
state_of-left l u d now s h = elim (Option-cases (row_of u s)) [
  | inl e ↦ rw e (ground arith)
  | inr (st, e) ↦ rw e
]

take_token-left :
    (l : RateLimits) (u v : String) (d now : ℕ) (s : Store)
    → day_of now ≡ d
    → let r = take_token l v now s in
      tally u v (spent r) + left_of l d (row_of u (after s r)) ≤ left_of l d (row_of u s)
take_token-left l u v d now s h = elim (Bool-cases (str_eq v u)) [
  | inl e ↦
      let same : v ≡ u = (eq_iff v u).0 e in
      let own =
        take_row-left l d now (row_of u s) (state_of l u now s) (state_of-left l u d now s h) h in
      rw (row_of-take l u v now s, spent-take l v now s, e, same) own
  | inr e ↦ rw (row_of-take l u v now s, e) (omega arith)
]

-- On one UTC day the requests granted to an analyst are at most the daily cap and the bonus less
-- what the day has already used, whatever the other analysts do; an analyst with no row, or with a
-- row of another day, has the plain cap.
pub granted_to-le-left :
    (l : RateLimits) (u : String) (d : ℕ) (calls : Calls) (s : Store)
    → OnDay d calls
    → granted_to l u calls s ≤ left_of l d (row_of u s)
unfolding granted_to
granted_to-le-left l u d [] s o = omega arith
granted_to-le-left l u d ((v, now) ∷ calls) s (h, o) = omega (
  arith,
  take_token-left l u v d now s h,
  granted_to-le-left l u d calls (after s (take_token l v now s)) o,
)
