-- ===== src/Sandbox/Wire.antt =====
-- Outcomes and events survive their way from a worker to the daemon.
use agent_collab.Base.{String, ◌≡◌, refl, Bool, true, false, Option, none, some, ok}
use agent_collab.Base.Text.{is_truthy}
use agent_collab.Base.Values.{Value, str, Fields, get_field}
use agent_collab.Events.{Event, Identity, is_source, is_type, mark_provider_session}
use agent_collab.Outcomes.Codes.{
  Kind, completed, cancelled, interrupted, timed_out, refused, failed, kind_name,
}
use agent_collab.Outcomes.Fields.{of_text}
use agent_collab.Outcomes.Turn.{TurnOutcome, outcome_to_dict}
use agent_collab.Outcomes.Canonical.{IsCanonical, make_outcome_again}
use agent_collab.Outcomes.Reload.{field_laws}
use agent_collab.Sandbox.Payloads.{
  require_listed, is_outcome_kind, made, outcome_to_payload, parse_outcome_payload, session_value,
  names_error, event_to_payload, optional_text, timestamp_of, marked_by, event_from_payload,
}

listed_kind : (k : Kind) → require_listed is_outcome_kind (str (kind_name k)) ≡ ok (kind_name k)
unfolding require_listed is_outcome_kind kind_name
listed_kind completed = refl
listed_kind cancelled = refl
listed_kind interrupted = refl
listed_kind timed_out = refl
listed_kind refused = refl
listed_kind failed = refl

-- A canonical outcome that a worker reports is accepted and is parsed as the same outcome.
pub parse_outcome_payload-outcome_to_payload :
    (o : TurnOutcome)
    → IsCanonical o
    → (payload : Fields) × (outcome_to_payload (made o) ≡ ok payload)
      × (parse_outcome_payload payload ≡ ok o)
unfolding outcome_to_payload parse_outcome_payload outcome_to_dict
parse_outcome_payload-outcome_to_payload o c =
    (outcome_to_dict o, simp (listed_kind), simp (field_laws, make_outcome_again o c))

-- The mark of an event is whole: its three parts are texts that are not empty.
pub data IsWhole : Option Identity → Type 0 where
  unmarked : IsWhole none
  whole :
      (agent session kind : String)
      → is_truthy agent ≡ true
      → is_truthy session ≡ true
      → is_truthy kind ≡ true
      → IsWhole (
          some (record {
            agent_id = str agent;
            provider_session_id = str session;
            provider_session_kind = str kind;
          }))

optional_text_of : (a : Option String) → optional_text (of_text a) ≡ ok a
optional_text_of none = refl
optional_text_of (some a) = refl

remarked :
    (e : Event) (s : Option Identity)
    → IsWhole s
    → marked_by (record e { provider_session = none }) (session_value s)
      ≡ record e { provider_session = s }
unfolding marked_by session_value mark_provider_session get_field
remarked e none unmarked = refl
remarked e (some i) (whole agent session kind a b c) = rw (a, b, c) refl

listed : (test : String → Bool) (s : String) → test s ≡ true → require_listed test (str s) ≡ ok s
unfolding require_listed
listed test s h = rw h refl

dated : (s : String) → is_truthy s ≡ true → timestamp_of (str s) ≡ ok s
dated s h = rw h refl

-- An event with a valid source and type, a timestamp, a whole mark or none, and no error in its payload
-- reaches the daemon unchanged, its trusted mark included.
pub event_from_payload-event_to_payload :
    (sanitize : String → String) (show : Value → String) (e : Event)
    → is_source e.source ≡ true
    → is_type e.type ≡ true
    → is_truthy e.timestamp ≡ true
    → IsWhole e.provider_session
    → names_error e.raw ≡ false
    → event_from_payload (event_to_payload sanitize show e) ≡ ok e
unfolding event_from_payload event_to_payload
event_from_payload-event_to_payload sanitize show e source type time whole_ clean = simp (
  clean,
  field_laws,
  listed is_source e.source source,
  listed is_type e.type type,
  dated e.timestamp time,
  optional_text_of,
  remarked e e.provider_session whole_,
)
