-- ===== src/Outcomes/Records.antt =====
-- `TurnOutcomeRecord` and `SessionFailure` of agent_collab/outcomes.py, with their wire forms. What
-- `str.isdigit` says of a character is Python's table of Unicode digits, the parameter `is_digit`.
use Prim.Native.Nat.{◌^◌}
use Prim.Native.Char.{Char, code}
use Prim.Native.String.{[], ◌∷◌}
use text.Mathlib.Text.{starts_with}
use agent_collab.Base.{
  String, Bool, true, false, ◌&&◌, ◌||◌, Option, none, some, leb, ◌=?◌, if◌then◌else◌, Result, ok,
  err, value_error, type_error, attribute_error, ◌>>=◌, ◌>>◌, require,
}
use agent_collab.Base.Text.{is_truthy, every, count_chars, drop_chars}
use agent_collab.Base.Values.{
  Value, null, bool, int, float, str, obj, ℤ, pos, negsuc, Float, finite, infinite, nan, Fields,
  end, field, get_field, put_present, is_hashable,
}
use agent_collab.Outcomes.Codes.{Kind, kind_name, message_of_code, is_backend}
use agent_collab.Outcomes.Fields.{
  parse_kind, of_text, check_message, safe_stop_reason, safe_exit_code, safe_retry_after, of_int,
  of_float,
}
use agent_collab.Outcomes.Turn.{TurnOutcome, make_outcome}

is_alnum : Char → Bool
is_alnum ch =
    let c = code ch in (leb 48 c && leb c 57) || (leb 65 c && leb c 90) || (leb 97 c && leb c 122)

is_identifier_char : Char → Bool
unfolding is_alnum
is_identifier_char ch = let c = code ch in is_alnum ch || (c =? b'.') || (c =? b'_') || (c =? b'-')

-- _IDENTIFIER.fullmatch(s)
unfoldable pub is_identifier : String → Bool
unfolding is_alnum is_identifier_char every count_chars
is_identifier [] = false
is_identifier (c ∷ s) = is_alnum c && every is_identifier_char s && leb (count_chars s) 127

-- 1 <= x of a float
unfoldable pub float_ge_one : Float → Bool
float_ge_one (finite true n k) = false
float_ge_one (finite false n k) = leb (2 ^ k) n
float_ge_one (infinite true) = false
float_ge_one (infinite false) = true
float_ge_one nan = true

unfoldable pub is_positive : ℤ → Bool
is_positive (pos n) = leb 1 n
is_positive (negsuc n) = false

-- `isinstance(stage_index, bool) or stage_index < 1` raises. A float passes.
unfoldable pub check_stage : Value → Result (Unit {0})
unfolding is_positive float_ge_one
check_stage (bool b) = err value_error
check_stage (int z) = require (is_positive z) value_error
check_stage (float f) = require (float_ge_one f) value_error
check_stage v = err type_error

unfoldable pub check_agent : Value → Result String
unfolding is_identifier
check_agent (str s) = if is_identifier s then ok s else err value_error
check_agent v = err value_error

unfoldable pub check_backend : Value → Result String
unfolding is_hashable
check_backend (str s) = if is_backend s then ok s else err value_error
check_backend v = if is_hashable v then err value_error else err type_error

-- `stage_index` holds what passed its check, an int or a float.
pub record TurnOutcomeRecord : Type 0 where
  pub turn_id : String
  pub stage_index : Value
  pub agent_id : String
  pub backend : String
  pub outcome : Kind
  pub code : Option String
  pub message : Option String
  pub provider_stop_reason : Option String
  pub process_exit_code : Option ℤ
  pub retry_after_seconds : Option Float

pub record SessionFailure : Type 0 where
  pub code : String
  pub message : Option String
  pub stage_index : Option ℤ
  pub turn_id : Option String
  pub agent_id : Option String
  pub backend : Option String
  pub outcome : Option Kind
  pub provider_stop_reason : Option String
  pub process_exit_code : Option ℤ
  pub retry_after_seconds : Option Float

-- A field that may be None, else is checked.
unfoldable pub optional : {A : Type 0} → (Value → Result A) → Value → Result (Option A)
optional check null = ok none
optional check v = do a ← check v; ok (some a)

unfoldable pub check_failure_code : Value → Result String
check_failure_code (str s) = elim (message_of_code s) [ some m ↦ ok s | none ↦ err value_error ]
check_failure_code v = err value_error

unfoldable pub check_failure_stage : Value → Result ℤ
unfolding is_positive
check_failure_stage (int z) = if is_positive z then ok z else err value_error
check_failure_stage v = err value_error

-- TurnOutcomeRecord.to_dict
unfoldable pub record_to_dict : TurnOutcomeRecord → Fields
unfolding put_present kind_name
record_to_dict r = put_present "turn_id" (str r.turn_id) (
    put_present "stage_index" r.stage_index (
      put_present "agent_id" (str r.agent_id) (
        put_present "backend" (str r.backend) (
          put_present "outcome" (str (kind_name r.outcome)) (
            put_present "code" (of_text r.code) (
              put_present "message" (of_text r.message) (
                put_present "provider_stop_reason" (of_text r.provider_stop_reason) (
                  put_present "process_exit_code" (of_int r.process_exit_code)
                    (put_present "retry_after_seconds" (of_float r.retry_after_seconds) end)))))))))

-- SessionFailure.to_dict keeps the null fields.
abbrev pub of_kind : Option Kind → Value
of_kind none = null
of_kind (some k) = str (kind_name k)

unfoldable pub failure_to_dict : SessionFailure → Fields
unfolding kind_name
failure_to_dict f = field "code" (str f.code) (
    field "message" (of_text f.message) (
      field "stage_index" (of_int f.stage_index) (
        field "turn_id" (of_text f.turn_id) (
          field "agent_id" (of_text f.agent_id) (
            field "backend" (of_text f.backend) (
              field "outcome" (of_kind f.outcome) (
                field "provider_stop_reason" (of_text f.provider_stop_reason) (
                  field "process_exit_code" (of_int f.process_exit_code)
                    (field "retry_after_seconds" (of_float f.retry_after_seconds) end)))))))))

module _ (is_digit : Char → Bool) where
  unfoldable pub is_turn_id : String → Bool
  unfolding drop_chars every
  is_turn_id s =
      starts_with s "turn-" && (let rest = drop_chars 5 s in is_truthy rest && every is_digit rest)

  -- `.startswith` of a value that is no text is an AttributeError.
  unfoldable pub check_turn_id : Value → Result String
  unfolding is_turn_id
  check_turn_id (str s) = if is_turn_id s then ok s else err value_error
  check_turn_id v = err attribute_error

  -- TurnOutcomeRecord.__post_init__ on the ten fields, in the order of declaration
  unfoldable pub make_record :
      (turn_id stage_index agent_id backend outcome code message stop_reason exit_code
        retry_after : Value)
      → Result TurnOutcomeRecord
  unfolding check_turn_id check_stage check_agent check_backend
  make_record turn stage agent backend outcome code message stop_reason exit_code retry_after = do
    turn_id ← check_turn_id turn
    check_stage stage
    agent_id ← check_agent agent
    backend_name ← check_backend backend
    o ← make_outcome outcome code message stop_reason exit_code retry_after
    ok (record {
      turn_id = turn_id;
      stage_index = stage;
      agent_id = agent_id;
      backend = backend_name;
      outcome = o.outcome;
      code = o.code;
      message = o.message;
      provider_stop_reason = o.provider_stop_reason;
      process_exit_code = o.process_exit_code;
      retry_after_seconds = o.retry_after_seconds;
    })

  -- TurnOutcomeRecord.from_outcome
  unfoldable pub from_outcome :
      String → Value → String → String → TurnOutcome → Result TurnOutcomeRecord
  unfolding make_record kind_name
  from_outcome turn_id stage agent_id backend o =
      make_record (str turn_id) stage (str agent_id) (str backend) (str (kind_name o.outcome))
        (of_text o.code) (of_text o.message) (of_text o.provider_stop_reason)
        (of_int o.process_exit_code) (of_float o.retry_after_seconds)

  -- TurnOutcomeRecord.from_dict: `.get` of a value that is no dict is an AttributeError.
  unfoldable pub record_from_dict : Value → Result TurnOutcomeRecord
  unfolding make_record get_field
  record_from_dict (obj d) =
      make_record (get_field d "turn_id") (get_field d "stage_index") (get_field d "agent_id")
        (get_field d "backend") (get_field d "outcome") (get_field d "code") (get_field d "message")
        (get_field d "provider_stop_reason") (get_field d "process_exit_code")
        (get_field d "retry_after_seconds")
  record_from_dict v = err attribute_error

  -- SessionFailure.__post_init__
  unfoldable pub make_failure :
      (code message stage_index turn_id agent_id backend outcome stop_reason exit_code
        retry_after : Value)
      → Result SessionFailure
  unfolding optional check_failure_code check_failure_stage check_turn_id check_agent check_backend
  make_failure code message stage turn agent backend outcome stop_reason exit_code retry_after = do
    code' ← check_failure_code code
    let expected = message_of_code code'
    check_message message expected
    reason ← safe_stop_reason stop_reason
    seconds ← safe_retry_after retry_after
    kind ← optional parse_kind outcome
    stage_index ← optional check_failure_stage stage
    turn_id ← optional check_turn_id turn
    agent_id ← optional check_agent agent
    backend_name ← optional check_backend backend
    ok (record {
      code = code';
      message = expected;
      stage_index = stage_index;
      turn_id = turn_id;
      agent_id = agent_id;
      backend = backend_name;
      outcome = kind;
      provider_stop_reason = reason;
      process_exit_code = safe_exit_code exit_code;
      retry_after_seconds = seconds;
    })

  -- SessionFailure.from_dict
  unfoldable pub failure_from_dict : Value → Result SessionFailure
  unfolding make_failure get_field
  failure_from_dict (obj d) =
      make_failure (get_field d "code") (get_field d "message") (get_field d "stage_index")
        (get_field d "turn_id") (get_field d "agent_id") (get_field d "backend")
        (get_field d "outcome") (get_field d "provider_stop_reason")
        (get_field d "process_exit_code") (get_field d "retry_after_seconds")
  failure_from_dict v = err attribute_error

  -- SessionFailure.from_record
  unfoldable pub from_record : TurnOutcomeRecord → Result SessionFailure
  unfolding make_failure kind_name
  from_record r = elim r.code [
    | none ↦ err value_error
    | some code ↦
        make_failure (str code) null r.stage_index (str r.turn_id) (str r.agent_id) (str r.backend)
          (str (kind_name r.outcome)) (of_text r.provider_stop_reason) (of_int r.process_exit_code)
          (of_float r.retry_after_seconds)
  ]
