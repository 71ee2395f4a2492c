-- ===== src/Sessions/Recording.antt =====
-- What the referee reports to its session: events, turn outcomes, answers, provider sessions and
-- flags (the callbacks of agent_collab/daemon.py).
use agent_collab.Base.{
  String, Bool, true, false, not, ◌&&◌, ◌||◌, Option, none, some, List, [], ◌∷◌, ◌++◌, any,
  if◌then◌else◌, ◌==◌, Result, ok, err, runtime_error,
}
use agent_collab.Base.Text.{is_truthy}
use agent_collab.Base.Dict.{get, put}
use agent_collab.Base.Values.{Value, str}
use agent_collab.Events.{Event}
use agent_collab.Outcomes.Records.{TurnOutcomeRecord}
use agent_collab.Sessions.{AgentSession, Answer, World, with_state, persist, schedule_notify}

-- What `to_dict` keeps of an event.
abbrev pub stored : Event → Event
stored e = record e { provider_session = none }

unfoldable pub append_stored : World → Event → World
append_stored w e = record w { managed = record w.managed { events = w.events ++ stored e ∷ [] } }

-- `isinstance(v, str) and v`
abbrev pub text_value : Value → Option String
text_value (str s) = if is_truthy s then some s else none
text_value _ = none

kind_eq : Option String → Option String → Bool
kind_eq none none = true
kind_eq (some a) (some b) = a == b
kind_eq _ _ = false

unfoldable pub same_session : Option AgentSession → AgentSession → Bool
unfolding kind_eq
same_session none b = false
same_session (some a) b =
    (a.backend == b.backend)
    && (a.provider_session_id == b.provider_session_id)
    && kind_eq a.provider_session_kind b.provider_session_kind

abbrev pub or_empty {ℓ} : {A : Type ℓ} → Option (List A) → List A
or_empty none = []
or_empty (some l) = l

-- The entry that an event's identity asks for, with its agent: only for an agent with a resolved
-- backend, of the config snapshot, whose type is the event's source.
unfoldable pub accepted_session : World → Event → Option (String × AgentSession)
accepted_session w e = elim e.provider_session [
  | none ↦ none
  | some identity ↦ elim (text_value identity.provider_session_id) [
    | none ↦ none
    | some session_id ↦ elim (text_value identity.agent_id) [
      | none ↦ none
      | some agent_id ↦ elim w.request [
        | none ↦ none
        | some request ↦ elim (get (or_empty request.resolved_backends) agent_id) [
          | none ↦ none
          | some backend ↦ elim (get (or_empty request.agent_types) agent_id) [
            | none ↦ none
            | some type ↦
                if not (is_truthy backend) || not (e.source == type)
                then none
                else some (
                  agent_id,
                  record {
                    backend = backend;
                    provider_session_id = session_id;
                    provider_session_kind = text_value identity.provider_session_kind;
                  },
                )
          ]
        ]
      ]
    ]
  ]
]

-- Writes an accepted entry, unless it is there already.
unfoldable pub keep_session :
    (disk : Bool) (now : String) → World → Option (String × AgentSession) → World
keep_session disk now w none = w
keep_session disk now w (some (agent_id, entry)) =
    let sessions = or_empty w.state.agent_sessions in
    if same_session (get sessions agent_id) entry
    then w
    else persist disk (
        with_state w (record w.state {
          agent_sessions = some (put sessions agent_id entry);
          updated_at = now;
        }))

-- _maybe_capture_provider_session
unfoldable pub capture_provider_session : (disk : Bool) (now : String) → World → Event → World
capture_provider_session disk now w e = keep_session disk now w (accepted_session w e)

-- _record_event
unfoldable pub record_event : (disk : Bool) (now : String) → World → Event → World
unfolding append_stored
record_event disk now w e =
    schedule_notify (capture_provider_session disk now (append_stored w e) e)

-- The writes of _record_turn_outcome, behind its test.
unfoldable pub note_outcome :
    (disk : Bool) (now : String) → World → TurnOutcomeRecord → Event → World
unfolding append_stored
note_outcome disk now w r boundary =
    let noted = with_state w (record w.state {
      turn_outcomes = some (or_empty w.state.turn_outcomes ++ r ∷ []);
      updated_at = boundary.timestamp;
    }) in
    schedule_notify
      (persist disk (capture_provider_session disk now (append_stored noted boundary) boundary))

-- _record_turn_outcome: a second outcome for one turn is refused.
unfoldable pub record_turn_outcome :
    (disk : Bool) (now : String) → World → TurnOutcomeRecord → Event → Result World
record_turn_outcome disk now w r boundary =
    if any (λ item. item.turn_id == r.turn_id) (or_empty w.state.turn_outcomes)
    then err runtime_error
    else ok (note_outcome disk now w r boundary)

-- _record_session_answer
unfoldable pub record_session_answer : World → String → Answer → World
record_session_answer w agent_id a =
    if is_truthy agent_id
    then record w { managed = record w.managed { answer_ledger = put w.answer_ledger agent_id a } }
    else w

-- _set_event_appender
unfoldable pub set_event_appender : World → Bool → World
set_event_appender w present = record w { managed = record w.managed { appender = present } }

-- _set_turn_active
unfoldable pub set_turn_active : World → Bool → World
set_turn_active w active = record w { managed = record w.managed { turn_active = active } }

-- _set_input_accepting
unfoldable pub set_input_accepting : World → Bool → World
set_input_accepting w accepting =
    schedule_notify (record w { managed = record w.managed { input_accepting = accepting } })
