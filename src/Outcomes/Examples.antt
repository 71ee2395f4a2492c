-- ===== src/Outcomes/Examples.antt =====
-- The theorems on turn outcomes, at concrete turns.
use agent_collab.Base.{String, ◌≡◌, refl, Option, none, some, [], ◌∷◌, ok, true, false}
use agent_collab.Base.Text.{is_ascii_digit}
use agent_collab.Base.Values.{null, int, str, obj, pos, negsuc, finite}
use agent_collab.Outcomes.Codes.{Kind, completed, failed, refused}
use agent_collab.Outcomes.Codes.{message_of_code}
use agent_collab.Outcomes.Fields.{
  parse_kind, canonical_message, safe_stop_reason, safe_retry_after, seconds_in_range,
}
use agent_collab.Outcomes.Turn.{TurnOutcome, make_outcome}
use agent_collab.Outcomes.Records.{
  TurnOutcomeRecord, SessionFailure, make_record, record_from_dict, record_to_dict, make_failure,
  failure_from_dict, failure_to_dict, from_record,
}
use agent_collab.Outcomes.Evidence.{TerminalEvidence, resolve, exit_failed}
use agent_collab.Outcomes.Coherence.{
  HasMatchingCode, IsListedReason, IsWithinWeek, make_outcome_coherent,
}
use agent_collab.Outcomes.Reload.{record_reload}
use agent_collab.Outcomes.Failures.{failure_of, failure_reload, from_record_total}
use agent_collab.Outcomes.Resolution.{Supports, resolve_completed}
use agent_collab.Outcomes.Totality.{resolve_total}

abbrev refused_turn : TurnOutcome
refused_turn = record {
  outcome = refused;
  code = some "provider_turn_refused";
  message = some "The provider refused the turn";
  provider_stop_reason = some "refusal";
  process_exit_code = some (pos 3);
  retry_after_seconds = some (finite false 5 0);
}

refused_made :
    make_outcome
      (str "refused")
      (str "provider_turn_refused")
      null
      (str "refusal")
      (int (pos 3))
      (int (pos 5))
    ≡ ok refused_turn
unfolding make_outcome parse_kind agent_collab.Outcomes.Codes.kind_of_name canonical_message
    message_of_code agent_collab.Outcomes.Fields.check_message safe_stop_reason
    agent_collab.Outcomes.Codes.is_stop_reason safe_retry_after
    agent_collab.Outcomes.Turn.check_code agent_collab.Outcomes.Fields.safe_exit_code
refused_made = refl

make_outcome_coherent_example :
    HasMatchingCode refused_turn
    × IsListedReason refused_turn.provider_stop_reason
    × IsWithinWeek refused_turn.retry_after_seconds
make_outcome_coherent_example =
    make_outcome_coherent (str "refused") (str "provider_turn_refused") null (str "refusal")
      (int (pos 3)) (int (pos 5)) refused_turn refused_made

abbrev refused_record : TurnOutcomeRecord
refused_record = record {
  turn_id = "turn-12";
  stage_index = int (pos 2);
  agent_id = "reviewer.1";
  backend = "claude_cli";
  outcome = refused;
  code = some "provider_turn_refused";
  message = some "The provider refused the turn";
  provider_stop_reason = some "refusal";
  process_exit_code = some (pos 3);
  retry_after_seconds = some (finite false 5 0);
}

refused_recorded :
    make_record is_ascii_digit
      (str "turn-12")
      (int (pos 2))
      (str "reviewer.1")
      (str "claude_cli")
      (str "refused")
      (str "provider_turn_refused")
      null
      (str "refusal")
      (int (pos 3))
      (int (pos 5))
    ≡ ok refused_record
unfolding make_record is_ascii_digit agent_collab.Outcomes.Codes.is_backend make_outcome parse_kind
    agent_collab.Outcomes.Codes.kind_of_name canonical_message message_of_code
    agent_collab.Outcomes.Fields.check_message safe_stop_reason
    agent_collab.Outcomes.Codes.is_stop_reason safe_retry_after
    agent_collab.Outcomes.Turn.check_code agent_collab.Outcomes.Fields.safe_exit_code
refused_recorded = refl

record_reload_example :
    record_from_dict is_ascii_digit (obj (record_to_dict refused_record)) ≡ ok refused_record
record_reload_example =
    record_reload is_ascii_digit (str "turn-12") (int (pos 2)) (str "reviewer.1") (str "claude_cli")
      (str "refused") (str "provider_turn_refused") null (str "refusal") (int (pos 3)) (int (pos 5))
      refused_record refused_recorded

abbrev refused_failure : SessionFailure
refused_failure = failure_of refused_record (pos 2) "provider_turn_refused"

refused_failure_made :
    make_failure is_ascii_digit
      (str "provider_turn_refused")
      null
      (int (pos 2))
      (str "turn-12")
      (str "reviewer.1")
      (str "claude_cli")
      (str "refused")
      (str "refusal")
      (int (pos 3))
      (int (pos 5))
    ≡ ok refused_failure
unfolding make_failure message_of_code agent_collab.Outcomes.Fields.check_message safe_stop_reason
    agent_collab.Outcomes.Codes.is_stop_reason safe_retry_after parse_kind
    agent_collab.Outcomes.Codes.kind_of_name is_ascii_digit agent_collab.Outcomes.Codes.is_backend
    agent_collab.Outcomes.Fields.safe_exit_code
refused_failure_made = refl

failure_reload_example :
    failure_from_dict is_ascii_digit (obj (failure_to_dict refused_failure)) ≡ ok refused_failure
failure_reload_example =
    failure_reload is_ascii_digit (str "provider_turn_refused") null (int (pos 2)) (str "turn-12")
      (str "reviewer.1") (str "claude_cli") (str "refused") (str "refusal") (int (pos 3))
      (int (pos 5)) refused_failure refused_failure_made

from_record_total_example :
    (c : String) × (refused_record.code ≡ some c)
    × (from_record is_ascii_digit refused_record ≡ ok (failure_of refused_record (pos 2) c))
from_record_total_example =
    from_record_total is_ascii_digit (str "turn-12") (str "reviewer.1") (str "claude_cli")
      (str "refused") (str "provider_turn_refused") null (str "refusal") (int (pos 3)) (int (pos 5))
      (pos 2) refused_record refused_recorded (λ e. cc)

abbrev done_evidence : TerminalEvidence
done_evidence = record {
  outcome = completed;
  code = none;
  provider_stop_reason = some "end_turn";
  retry_after_seconds = none;
}

abbrev refusal_evidence : TerminalEvidence
refusal_evidence = record {
  outcome = refused;
  code = some "provider_turn_refused";
  provider_stop_reason = some "refusal";
  retry_after_seconds = none;
}

abbrev done_turn : TurnOutcome
done_turn = record {
  outcome = completed;
  code = none;
  message = none;
  provider_stop_reason = some "end_turn";
  process_exit_code = some (pos 0);
  retry_after_seconds = none;
}

abbrev no_exception : Option String
no_exception = none

done_resolved : resolve (done_evidence ∷ []) (some (pos 0)) none false true ≡ ok done_turn
unfolding resolve make_outcome parse_kind agent_collab.Outcomes.Codes.kind_of_name canonical_message
    agent_collab.Outcomes.Fields.check_message safe_stop_reason
    agent_collab.Outcomes.Codes.is_stop_reason safe_retry_after
    agent_collab.Outcomes.Turn.check_code agent_collab.Outcomes.Fields.safe_exit_code
done_resolved = refl

resolve_completed_example :
    (no_exception ≡ none)
    × (exit_failed (some (pos 0)) ≡ false)
    × Supports (done_evidence ∷ []) false true
resolve_completed_example =
    resolve_completed (done_evidence ∷ []) (some (pos 0)) no_exception false true done_turn
      done_resolved refl

resolve_total_example :
    (o : TurnOutcome) × (resolve
        (refusal_evidence ∷ [])
        (some (negsuc 8))
        (some "provider_transport_failed")
        true
        false
      ≡ ok o)
unfolding canonical_message message_of_code agent_collab.Outcomes.Turn.check_code
resolve_total_example =
    resolve_total (refusal_evidence ∷ []) (some (negsuc 8)) (some "provider_transport_failed") true
      false
      (record { message = some "The provider refused the turn"; known = refl; fits = refl }, tt)
      ("The provider transport failed", refl)
