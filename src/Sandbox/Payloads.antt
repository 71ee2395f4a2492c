-- ===== src/Sandbox/Payloads.antt =====
-- The payloads of worker frames: envelopes, outcomes and events of agent_collab/sandbox/worker_codec.py.
-- `sanitize` is sanitize_error_text, which reads the environment, and `show` is `str` of a value.
use agent_collab.Base.{
  String, Bool, false, ◌&&◌, Option, none, some, [], ◌∷◌, if◌then◌else◌, ◌==◌, Error, Result, ok,
  err, ◌>>=◌, value_error, type_error, key_error, worker_protocol_error,
}
use agent_collab.Base.Text.{is_truthy, member}
use agent_collab.Base.Values.{
  has_field, Value, null, str, obj, Fields, end, field, get_field, put_present, is_true,
  is_hashable,
}
use agent_collab.Events.{Event, Identity, is_source, is_type, mark_provider_session}
use agent_collab.Outcomes.Fields.{of_text}
use agent_collab.Outcomes.Turn.{TurnOutcome, make_outcome, outcome_to_dict}

-- `x not in {...}: raise WorkerProtocolError`, where a list or dict is not hashable
unfoldable pub require_listed : (String → Bool) → Value → Result String
unfolding is_hashable
require_listed listed (str s) = if listed s then ok s else err worker_protocol_error
require_listed listed v = if is_hashable v then err worker_protocol_error else err type_error

unfoldable pub is_outcome_kind : String → Bool
is_outcome_kind s =
    member s ("completed" ∷ "cancelled" ∷ "interrupted" ∷ "timed_out" ∷ "refused" ∷ "failed" ∷ [])

-- What a worker reports as its outcome: an object with to_dict, a mapping, or something else.
pub data Reported : Type 0 where
  made : TurnOutcome → Reported
  mapping : Fields → Reported
  opaque : Reported

unfoldable pub reported_fields : Reported → Result Fields
unfolding outcome_to_dict
reported_fields (made o) = ok (outcome_to_dict o)
reported_fields (mapping d) = ok d
reported_fields opaque = err worker_protocol_error

-- outcome_to_payload
unfoldable pub outcome_to_payload : Reported → Result Fields
unfolding reported_fields require_listed is_outcome_kind
outcome_to_payload r = do
  payload ← reported_fields r
  kind ← require_listed is_outcome_kind (get_field payload "outcome")
  ok payload

-- `except (KeyError, TypeError, ValueError)`
abbrev pub as_protocol_error : Error → Error
as_protocol_error key_error = worker_protocol_error
as_protocol_error type_error = worker_protocol_error
as_protocol_error value_error = worker_protocol_error
as_protocol_error e = e

abbrev pub protocol_checked {ℓ} : {A : Type ℓ} → Result A → Result A
protocol_checked (ok a) = ok a
protocol_checked (err e) = err (as_protocol_error e)

-- parse_outcome_payload. Without an outcome, the KeyError and the constructor's error for None become the same.
unfoldable pub parse_outcome_payload : Fields → Result TurnOutcome
unfolding get_field
parse_outcome_payload payload = protocol_checked (
    make_outcome (get_field payload "outcome") (get_field payload "code")
      (get_field payload "message") (get_field payload "provider_stop_reason")
      (get_field payload "process_exit_code") (get_field payload "retry_after_seconds"))

-- `d[key] = v` of a key that is there
unfoldable pub set_field : Fields → String → Value → Fields
set_field end k v = end
set_field (field j w fs) k v =
    let rest = set_field fs k v in if j == k then field j v fs else field j w rest

unfoldable pub session_value : Option Identity → Value
session_value none = null
session_value (some i) = obj (
    field "agent_id" i.agent_id (
      field "provider_session_id" i.provider_session_id
        (field "provider_session_kind" i.provider_session_kind end)))

abbrev pub names_error : Value → Bool
names_error (obj d) = has_field d "error"
names_error v = false

module _ (sanitize : String → String) (show : Value → String) where
  abbrev pub scrub : Value → Value
  scrub (obj d) = obj (
      set_field d "error"
        (str (sanitize (let v = get_field d "error" in if is_true v then show v else ""))))
  scrub v = v

  -- event_to_payload
  unfoldable pub event_to_payload : Event → Fields
  unfolding put_present session_value
  event_to_payload e =
      let hidden = names_error e.raw in
      field "timestamp" (str e.timestamp) (
        field "source" (str e.source) (
          field "type" (str e.type) (
            field "text" (str (if hidden then sanitize e.text else e.text)) (
              field "raw" (if hidden then scrub e.raw else e.raw) (
                field "agent_id" (of_text e.agent_id)
                  (put_present "provider_session" (session_value e.provider_session) end))))))

abbrev pub text_or_error : Value → Result String
text_or_error (str s) = ok s
text_or_error v = err worker_protocol_error

abbrev pub optional_text : Value → Result (Option String)
optional_text null = ok none
optional_text (str s) = ok (some s)
optional_text v = err worker_protocol_error

abbrev pub timestamp_of : Value → Result String
timestamp_of (str s) = if is_truthy s then ok s else err worker_protocol_error
timestamp_of v = err worker_protocol_error

abbrev pub is_filled : Value → Bool
is_filled (str s) = is_truthy s
is_filled v = false

-- The trusted mark of a payload that carries a whole one.
unfoldable pub marked_by : Event → Value → Event
unfolding mark_provider_session get_field
marked_by e (obj d) =
    let sid = get_field d "provider_session_id" in
    let kind = get_field d "provider_session_kind" in
    let agent = get_field d "agent_id" in
    if is_filled sid && is_filled kind && is_filled agent
    then mark_provider_session e agent sid kind
    else e
marked_by e v = e

-- event_from_payload
unfoldable pub event_from_payload : Fields → Result Event
unfolding require_listed is_source is_type marked_by get_field
event_from_payload payload = do
  source ← require_listed is_source (get_field payload "source")
  type ← require_listed is_type (get_field payload "type")
  text ← text_or_error (get_field payload "text")
  agent_id ← optional_text (get_field payload "agent_id")
  timestamp ← timestamp_of (get_field payload "timestamp")
  ok (
      marked_by
        (record {
          timestamp = timestamp;
          source = source;
          type = type;
          text = text;
          raw = get_field payload "raw";
          agent_id = agent_id;
          provider_session = none;
        })
        (get_field payload "provider_session"))
