-- ===== src/Outcomes/Fields.antt =====
-- The field checks of agent_collab/outcomes.py: canonical messages, and the `_safe_` reducers
-- that drop a provider value which is not on a list or not in range.
use agent_collab.Base.{
  ℕ, suc, ◌-◌, ◌*◌, ◌^◌, String, Bool, true, false, not, ◌&&◌, ◌||◌, Option, none, some, ltb, leb,
  ◌=?◌, if◌then◌else◌, ◌==◌, Result, ok, err, value_error, type_error, overflow_error, ◌>>=◌,
}
use agent_collab.Base.Text.{count_chars}
use agent_collab.Base.Values.{
  Value, null, int, float, str, is_hashable, ℤ, pos, negsuc, Float, finite, infinite, nan,
}
use agent_collab.Outcomes.Codes.{Kind, kind_of_name, message_of_code, is_stop_reason}

-- `self.outcome not in OUTCOME_KINDS`: TypeError where the value cannot be hashed.
unfoldable pub parse_kind : Value → Result Kind
unfolding is_hashable
parse_kind (str s) = elim (kind_of_name s) [ some k ↦ ok k | none ↦ err value_error ]
parse_kind v = if is_hashable v then err value_error else err type_error

unfoldable pub canonical_message : Value → Result (Option String)
unfolding is_hashable
canonical_message null = ok none
canonical_message (str code) = elim (message_of_code code) [
  | some m ↦ ok (some m)
  | none ↦ err value_error
]
canonical_message v = if is_hashable v then err value_error else err type_error

-- A code that has a canonical message, or None.
abbrev pub text_of : Value → Option String
text_of (str s) = some s
text_of _ = none

abbrev pub of_text : Option String → Value
of_text none = null
of_text (some s) = str s

-- `self.message not in (None, expected)` raises.
unfoldable pub check_message : Value → Option String → Result (Unit {0})
check_message null expected = ok tt
check_message (str m) (some e) = if m == e then ok tt else err value_error
check_message v expected = err value_error

unfoldable pub safe_stop_reason : Value → Result (Option String)
unfolding is_hashable count_chars
safe_stop_reason null = ok none
safe_stop_reason (str s) =
    if not (is_stop_reason s) || ltb 32 (count_chars s) then ok none else ok (some s)
safe_stop_reason v = if is_hashable v then ok none else err type_error

unfoldable pub safe_exit_code : Value → Option ℤ
safe_exit_code (int z) = some z
safe_exit_code _ = none

-- `float(n)` of an int. It is exact below 2 ^ 53; above that the float, rounded or not, is out of
-- the accepted range, as the int is. It raises OverflowError where the rounded value passes the
-- largest float.
unfoldable pub float_of_int : ℤ → Result Float
float_of_int (pos n) =
    if leb (2 ^ 1024 - 2 ^ 970) n then err overflow_error else ok (finite false n 0)
float_of_int (negsuc n) =
    if leb (2 ^ 1024 - 2 ^ 970) (suc n) then err overflow_error else ok (finite true (suc n) 0)

-- seconds <= 0
unfoldable pub float_le_zero : Float → Bool
float_le_zero (finite negative n k) = negative || (n =? 0)
float_le_zero (infinite negative) = negative
float_le_zero nan = false

-- limit < seconds, for a limit that is a natural number
unfoldable pub float_above : ℕ → Float → Bool
float_above limit (finite negative n k) = not negative && ltb (limit * 2 ^ k) n
float_above limit (infinite negative) = not negative
float_above limit nan = false

unfoldable pub seconds_in_range : Float → Option Float
unfolding float_le_zero float_above
seconds_in_range f = if float_le_zero f || float_above (7 * 24 * 60 * 60) f then none else some f

unfoldable pub safe_retry_after : Value → Result (Option Float)
unfolding float_of_int seconds_in_range
safe_retry_after (int z) = do f ← float_of_int z; ok (seconds_in_range f)
safe_retry_after (float f) = ok (seconds_in_range f)
safe_retry_after v = ok none

abbrev pub of_int : Option ℤ → Value
of_int none = null
of_int (some z) = int z

abbrev pub of_float : Option Float → Value
of_float none = null
of_float (some f) = float f
