-- ===== src/Sessions/RestartExamples.antt =====
-- The theorems on restarts, at stored sessions.
use agent_collab.Base.{
  String, ◌≡◌, refl, Bool, true, false, Option, none, some, List, [], ◌∷◌, All, Result, ok,
}
use agent_collab.Base.Text.{is_ascii_digit}
use agent_collab.Base.Values.{null, str, int, pos}
use agent_collab.Outcomes.Records.{SessionFailure, TurnOutcomeRecord, make_failure, make_record}
use agent_collab.Outcomes.Failures.{make_failure-IsFailure}
use agent_collab.Outcomes.Reload.{make_record-IsRecord}
use agent_collab.Outcomes.Codes.{completed}
use agent_collab.Sessions.{status_name, running, failed, interrupted, World, SessionState}
use agent_collab.Sessions.Restore.{
  state_from_record, restored_session, Restored, restore_from_index,
}
use agent_collab.Sessions.Settings.{has_sandbox}
use agent_collab.Sessions.Restart.{
  stored_state, read_back, IsOver, state_from_record-stored_state, restore_from_index-IsOver,
}
use agent_collab.Sessions.Examples.{session}

abbrev transport_failure : SessionFailure
transport_failure = record {
  code = "provider_transport_failed";
  message = some "The provider transport failed";
  stage_index = none;
  turn_id = none;
  agent_id = none;
  backend = none;
  outcome = none;
  provider_stop_reason = none;
  process_exit_code = none;
  retry_after_seconds = none;
}

transport_failure_made :
    make_failure is_ascii_digit
      (str "provider_transport_failed")
      null
      null
      null
      null
      null
      null
      null
      null
      null
    ≡ ok transport_failure
unfolding make_failure agent_collab.Outcomes.Codes.message_of_code
    agent_collab.Outcomes.Fields.check_message agent_collab.Outcomes.Fields.safe_stop_reason
    agent_collab.Outcomes.Fields.safe_retry_after agent_collab.Outcomes.Fields.safe_exit_code
transport_failure_made = refl

abbrev pub first_turn : TurnOutcomeRecord
first_turn = record {
  turn_id = "turn-1";
  stage_index = int (pos 1);
  agent_id = "a";
  backend = "mock";
  outcome = completed;
  code = none;
  message = none;
  provider_stop_reason = none;
  process_exit_code = none;
  retry_after_seconds = none;
}

first_turn_made :
    make_record is_ascii_digit
      (str "turn-1")
      (int (pos 1))
      (str "a")
      (str "mock")
      (str "completed")
      null
      null
      null
      null
      null
    ≡ ok first_turn
unfolding make_record is_ascii_digit agent_collab.Outcomes.Codes.is_backend
    agent_collab.Outcomes.Turn.make_outcome agent_collab.Outcomes.Fields.parse_kind
    agent_collab.Outcomes.Codes.kind_of_name agent_collab.Outcomes.Fields.canonical_message
    agent_collab.Outcomes.Fields.check_message agent_collab.Outcomes.Fields.safe_stop_reason
    agent_collab.Outcomes.Fields.safe_retry_after agent_collab.Outcomes.Turn.check_code
    agent_collab.Outcomes.Fields.safe_exit_code
first_turn_made = refl

abbrev failed_state : SessionState
failed_state = record session.state {
  status = failed;
  settings = null;
  ended_at = some "12:09";
  error = some "The provider transport failed";
  failure = some transport_failure;
  turn_outcomes = some (first_turn ∷ []);
}

state_from_record-stored_state_example :
    (state_from_record is_ascii_digit (stored_state failed_state)
      ≡ ok (some (read_back failed_state)))
    × (has_sandbox (read_back failed_state).settings ≡ true)
    × (state_from_record is_ascii_digit (stored_state (read_back failed_state))
        ≡ ok (some (read_back failed_state)))
unfolding status_name
state_from_record-stored_state_example =
    state_from_record-stored_state is_ascii_digit failed_state
      (make_failure-IsFailure is_ascii_digit (str "provider_transport_failed") null null null null
        null null null null null transport_failure transport_failure_made)
      (
        make_record-IsRecord is_ascii_digit (str "turn-1") (int (pos 1)) (str "a") (str "mock")
            (str "completed") null null null null null first_turn first_turn_made,
        tt,
      )
      refl refl

abbrev cut_off : SessionState
cut_off = record session.state {
  status = interrupted;
  updated_at = "13:00";
  ended_at = some "13:00";
}

abbrev after : Restored
after = record { sessions = ("s1", restored_session cut_off) ∷ []; index = none }

restored :
    restore_from_index is_ascii_digit true "13:00"
      (record { sessions = []; index = none })
      (stored_state session.state ∷ [])
    ≡ ok after
unfolding restore_from_index agent_collab.Base.Dict.get agent_collab.Base.Dict.put
    agent_collab.Sessions.persist agent_collab.Sessions.Lifecycle.transition_state
restored = refl

restore_from_index-IsOver_example : All (λ e. IsOver e.1) after.sessions
restore_from_index-IsOver_example =
    restore_from_index-IsOver is_ascii_digit true "13:00" (stored_state session.state ∷ []) none
      after (refl, tt) restored
