-- ===== src/Retention/Durations.antt =====
-- agent_collab/durations.py, and `parse_duration` of agent_collab/retention.py. A `timedelta` is its
-- microseconds.
use agent_collab.Base.{
  ℕ, ◌*◌, String, Bool, false, Option, none, some, [], ◌∷◌, if◌then◌else◌, ltb, leb, Result, ok,
  err, value_error, overflow_error,
}
use agent_collab.Base.Text.{strip, but_last, last_char, is_ascii_number, to_number, count_chars}
use agent_collab.Base.Dict.{Dict, get}
use agent_collab.Base.Values.{Value, str}

abbrev pub microseconds_per_hour : ℕ
microseconds_per_hour = 3600000000

-- timedelta.max
abbrev pub timedelta_max : ℕ
timedelta_max = 86399999999999999999

-- int(number) of a text of ASCII digits: sys.get_int_max_str_digits() is 4300
unfoldable pub parse_int : String → Result ℕ
unfolding to_number count_chars
parse_int number =
    if leb (count_chars number) 4300 then ok (to_number 0 number) else err value_error

-- `count * units[unit]`
unfoldable pub times : ℕ → ℕ → Result ℕ
times count unit =
    if leb (count * unit) timedelta_max then ok (count * unit) else err overflow_error

-- The end of parse_whole_duration, from the count on.
unfoldable pub scale_count : (allow_zero : Bool) (unit : ℕ) → Result ℕ → Result ℕ
unfolding times
scale_count allow_zero unit (err e) = err e
scale_count allow_zero unit (ok count) =
    if ltb count (if allow_zero then 0 else 1) then err value_error else times count unit

unfoldable pub parse_number : (allow_zero : Bool) → String → Option ℕ → Result ℕ
unfolding scale_count parse_int
parse_number allow_zero number none = err value_error
parse_number allow_zero number (some unit) =
    if is_ascii_number number
    then scale_count allow_zero unit (parse_int number)
    else err value_error

-- parse_whole_duration
unfoldable pub parse_whole_duration : (units : Dict ℕ) (allow_zero : Bool) → Value → Result ℕ
unfolding parse_number strip but_last last_char get
parse_whole_duration units allow_zero (str text) =
    let value = strip text in parse_number allow_zero (but_last value) (get units (last_char value))
parse_whole_duration units allow_zero v = err value_error

-- _DURATION_UNITS
abbrev pub duration_units : Dict ℕ
duration_units =
    ("h", microseconds_per_hour)
    ∷ ("d", 24 * microseconds_per_hour)
    ∷ ("w", 7 * (24 * microseconds_per_hour))
    ∷ []

-- parse_duration
unfoldable pub parse_duration : Value → Result ℕ
unfolding parse_whole_duration
parse_duration text = parse_whole_duration duration_units false text
