-- ===== src/Sandbox/CodecExamples.antt =====
-- The theorems on the frames and payloads of workers, at concrete ones.
use agent_collab.Base.{
  String, ◌≡◌, refl, false, Option, some, [], ◌∷◌, ◌++◌, length, ◌=?◌, if◌then◌else◌, ok,
}
use agent_collab.Base.Values.{Value, str, obj, Fields, end, field}
use agent_collab.Events.{Event, Identity}
use agent_collab.Sandbox.Frames.{Bytes, recv_frame_sync, send_frame_sync}
use agent_collab.Sandbox.Transport.{recv_frame_sync-send_frame_sync}
use agent_collab.Outcomes.Codes.{refused}
use agent_collab.Outcomes.Turn.{TurnOutcome}
use agent_collab.Outcomes.Canonical.{IsCanonical}
use agent_collab.Base.Values.{pos, finite}
use agent_collab.Sandbox.Payloads.{
  made, outcome_to_payload, parse_outcome_payload, event_to_payload, event_from_payload,
}
use agent_collab.Sandbox.Wire.{
  whole, parse_outcome_payload-outcome_to_payload, event_from_payload-event_to_payload,
}

-- {"type":"close"}
abbrev closing : Fields
closing = field "type" (str "close") end

abbrev closing_bytes : Bytes
closing_bytes =
    123 ∷ 34 ∷ 116 ∷ 121 ∷ 112 ∷ 101 ∷ 34 ∷ 58 ∷ 34 ∷ 99 ∷ 108 ∷ 111 ∷ 115 ∷ 101 ∷ 34 ∷ 125 ∷ []

-- A codec of two payloads, {} and the closing one.
abbrev dumps_two : Fields → Bytes
dumps_two end = 123 ∷ 125 ∷ []
dumps_two (field k v fs) = closing_bytes

abbrev loads_two : Bytes → Option Value
loads_two bytes = if length bytes =? 2 then some (obj end) else some (obj closing)

recv_frame_sync-send_frame_sync_example :
    (sent : Bytes) × (send_frame_sync dumps_two loads_two (λ i. 2) [] closing ≡ ok sent)
    × (recv_frame_sync dumps_two loads_two (λ i. 0) (λ i. 6) (sent ++ 0 ∷ 0 ∷ [])
        ≡ ok (closing, 0 ∷ 0 ∷ []))
recv_frame_sync-send_frame_sync_example =
    recv_frame_sync-send_frame_sync dumps_two loads_two (λ i. 2) (λ i. 0) (λ i. 6) closing
      (0 ∷ 0 ∷ []) refl refl

abbrev refusal : TurnOutcome
refusal = record {
  outcome = refused;
  code = some "provider_turn_refused";
  message = some "The provider refused the turn";
  provider_stop_reason = some "refusal";
  process_exit_code = some (pos 3);
  retry_after_seconds = some (finite false 5 0);
}

refusal-IsCanonical : IsCanonical refusal
unfolding agent_collab.Outcomes.Fields.canonical_message agent_collab.Outcomes.Codes.message_of_code
    agent_collab.Outcomes.Turn.check_code agent_collab.Outcomes.Fields.safe_stop_reason
    agent_collab.Outcomes.Codes.is_stop_reason agent_collab.Outcomes.Fields.safe_retry_after
refusal-IsCanonical = record { messages = refl; codes = refl; reasons = refl; seconds = refl }

parse_outcome_payload-outcome_to_payload_example :
    (payload : Fields) × (outcome_to_payload (made refusal) ≡ ok payload)
    × (parse_outcome_payload payload ≡ ok refusal)
parse_outcome_payload-outcome_to_payload_example =
    parse_outcome_payload-outcome_to_payload refusal refusal-IsCanonical

abbrev started : Event
started = record {
  timestamp = "12:00";
  source = "claude";
  type = "status";
  text = "session started";
  raw = obj (field "final" (str "no") end);
  agent_id = some "alice";
  provider_session = some (record {
    agent_id = str "alice";
    provider_session_id = str "s1";
    provider_session_kind = str "thread";
  });
}

abbrev keep : String → String
keep s = s

abbrev shown_value : Value → String
shown_value v = "value"

event_from_payload-event_to_payload_example :
    event_from_payload (event_to_payload keep shown_value started) ≡ ok started
unfolding agent_collab.Events.is_source agent_collab.Events.is_type
    agent_collab.Base.Values.has_field
event_from_payload-event_to_payload_example =
    event_from_payload-event_to_payload keep shown_value started refl refl refl
      (whole "alice" "s1" "thread" refl refl refl) refl
