-- ===== src/Retention/Bounds.antt =====
-- What `parse_duration` accepts.
use agent_collab.Base.{
  ℕ, zero, suc, ◌≤◌, String, ◌≡◌, refl, false, Option, none, some, arith, Result, ok, err,
}
use agent_collab.Base.Text.{strip, but_last, last_char}
use agent_collab.Base.Dict.{get}
use agent_collab.Base.Values.{Value, str}
use agent_collab.Retention.Durations.{
  microseconds_per_hour, timedelta_max, parse_int, times, scale_count, parse_number,
  parse_whole_duration, duration_units, parse_duration,
}

scale_count-bounds :
    (unit t : ℕ) (count : Result ℕ)
    → scale_count false unit count ≡ ok t
    → (unit ≤ t) × (t ≤ timedelta_max)
unfolding scale_count times
scale_count-bounds unit t (err e) h = cc
scale_count-bounds unit t (ok zero) h = cc
scale_count-bounds unit t (ok (suc n)) h = ground arith

number_bounds :
    (unit t : ℕ) (number : String)
    → parse_number false number (some unit) ≡ ok t
    → (unit ≤ t) × (t ≤ timedelta_max)
unfolding parse_number
number_bounds unit t number h = scale_count-bounds unit t (parse_int number) (ground arith)

unit_bound : (s : String) (u : ℕ) → get duration_units s ≡ some u → microseconds_per_hour ≤ u
unfolding get
unit_bound s u h = ground arith

unit_given :
    (t : ℕ) (number : String) (unit : Option ℕ)
    → ((u : ℕ) → unit ≡ some u → microseconds_per_hour ≤ u)
    → parse_number false number unit ≡ ok t
    → (microseconds_per_hour ≤ t) × (t ≤ timedelta_max)
unfolding parse_number
unit_given t number none k h = cc
unit_given t number (some u) k h = ground (arith, number_bounds u t number, k u refl)

-- Whatever value is given, a retention that is accepted is at least an hour, so nothing is ever pruned
-- at once, and it is a valid timedelta.
pub parse_duration_bounds :
    (v : Value) (t : ℕ)
    → parse_duration v ≡ ok t
    → (microseconds_per_hour ≤ t) × (t ≤ timedelta_max)
unfolding parse_duration parse_whole_duration
parse_duration_bounds (str s) t h =
    unit_given t (but_last (strip s)) (get duration_units (last_char (strip s)))
      (unit_bound (last_char (strip s))) h
parse_duration_bounds _ t h = cc
