-- ===== src/Outcomes/Turn.antt =====
-- `TurnOutcome` of agent_collab/outcomes.py: the checks of its constructor and its wire form.
use agent_collab.Base.{String, Option, none, some, Result, ok, err, value_error, ◌>>=◌, ◌>>◌}
use agent_collab.Base.Values.{Value, str, ℤ, Float, Fields, end, field, put_present}
use agent_collab.Outcomes.Codes.{Kind, completed, kind_name}
use agent_collab.Outcomes.Fields.{
  parse_kind, canonical_message, text_of, of_text, check_message, safe_stop_reason, safe_exit_code,
  safe_retry_after, of_int, of_float,
}

pub record TurnOutcome : Type 0 where
  pub outcome : Kind
  pub code : Option String
  pub message : Option String
  pub provider_stop_reason : Option String
  pub process_exit_code : Option ℤ
  pub retry_after_seconds : Option Float

-- A completed outcome has no code, and any other has one.
unfoldable pub check_code : Kind → Option String → Result (Unit {0})
check_code completed none = ok tt
check_code completed (some code) = err value_error
check_code kind none = err value_error
check_code kind (some code) = ok tt

-- TurnOutcome(outcome, code, message, provider_stop_reason, process_exit_code, retry_after_seconds)
unfoldable pub make_outcome : Value → Value → Value → Value → Value → Value → Result TurnOutcome
make_outcome outcome code message stop_reason exit_code retry_after = do
  kind ← parse_kind outcome
  expected ← canonical_message code
  check_message message expected
  reason ← safe_stop_reason stop_reason
  seconds ← safe_retry_after retry_after
  check_code kind (text_of code)
  ok (record {
    outcome = kind;
    code = text_of code;
    message = expected;
    provider_stop_reason = reason;
    process_exit_code = safe_exit_code exit_code;
    retry_after_seconds = seconds;
  })

-- TurnOutcome.to_dict: the fields that are not None, in the order of declaration.
unfoldable pub outcome_to_dict : TurnOutcome → Fields
unfolding put_present kind_name
outcome_to_dict o = field "outcome" (str (kind_name o.outcome)) (
    put_present "code" (of_text o.code) (
      put_present "message" (of_text o.message) (
        put_present "provider_stop_reason" (of_text o.provider_stop_reason) (
          put_present "process_exit_code" (of_int o.process_exit_code)
            (put_present "retry_after_seconds" (of_float o.retry_after_seconds) end)))))
