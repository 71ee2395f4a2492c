-- ===== src/Outcomes/Failures.antt =====
-- `SessionFailure`: its wire form reads back unchanged, and every failed turn's record makes one.
use Prim.Native.Char.{Char}
use agent_collab.Base.{
  ap, sym, ◌∙◌, String, ◌≡◌, refl, ◌≢◌, Bool, Option, none, some, arith, Result, ok,
}
use agent_collab.Base.Values.{Value, null, str, obj, int, ℤ}
use agent_collab.Outcomes.Codes.{Kind, completed, message_of_code}
use agent_collab.Outcomes.Fields.{
  parse_kind, of_text, check_message, safe_stop_reason, safe_retry_after, of_int, of_float,
}
use agent_collab.Outcomes.Records.{
  TurnOutcomeRecord, SessionFailure, check_turn_id, check_stage, check_agent, check_backend,
  make_record, optional, check_failure_code, check_failure_stage, make_failure, failure_to_dict,
  failure_from_dict, of_kind, from_record,
}
use agent_collab.Outcomes.Canonical.{
  parse_kind-kind_name, safe_stop_reason_again, safe_retry_after_again, safe_exit_code_again,
  check_message_again,
}
use agent_collab.Outcomes.Reload.{
  field_laws, check_turn_id_again, check_agent_again, check_backend_again, IsRecord,
  make_record-IsRecord, outcome_of,
}
use agent_collab.Outcomes.Coherence.{matching}
use agent_collab.Base.{inl, inr}

-- The fields of a failure are what its constructor accepts.
pub record IsFailure (is_digit : Char → Bool) (f : SessionFailure) : Type 0 where
  codes : check_failure_code (str f.code) ≡ ok f.code
  messages : message_of_code f.code ≡ f.message
  reasons : safe_stop_reason (of_text f.provider_stop_reason) ≡ ok f.provider_stop_reason
  seconds : safe_retry_after (of_float f.retry_after_seconds) ≡ ok f.retry_after_seconds
  kinds : optional parse_kind (of_kind f.outcome) ≡ ok f.outcome
  stages : optional check_failure_stage (of_int f.stage_index) ≡ ok f.stage_index
  turns : optional (check_turn_id is_digit) (of_text f.turn_id) ≡ ok f.turn_id
  agents : optional check_agent (of_text f.agent_id) ≡ ok f.agent_id
  backends : optional check_backend (of_text f.backend) ≡ ok f.backend

optional_again :
    (check : Value → Result String)
    → ((v : Value) (s : String) → check v ≡ ok s → check (str s) ≡ ok s)
    → (v : Value) (s : Option String) → optional check v ≡ ok s
    → optional check (of_text s) ≡ ok s
unfolding optional
optional_again check again null none h = refl
optional_again check again v none h = refl
optional_again check again null (some t) h = cc
optional_again check again v (some t) h = ground (arith, again v t)

optional_kind : (k : Option Kind) → optional parse_kind (of_kind k) ≡ ok k
unfolding optional
optional_kind none = refl
optional_kind (some k) = rw (parse_kind-kind_name k)

optional_stage :
    (v : Value) (z : Option ℤ)
    → optional check_failure_stage v ≡ ok z
    → optional check_failure_stage (of_int z) ≡ ok z
unfolding optional check_failure_stage
optional_stage (int n) none h = refl
optional_stage (int n) (some z) h = ground arith
optional_stage v none h = refl
optional_stage v (some z) h = ground arith

pub IsFailure-reload :
    (is_digit : Char → Bool) (f : SessionFailure)
    → IsFailure is_digit f
    → failure_from_dict is_digit (obj (failure_to_dict f)) ≡ ok f
unfolding failure_from_dict failure_to_dict
IsFailure-reload is_digit f v = simp (
  field_laws, v.codes, v.messages, check_message_again, v.reasons, v.seconds, v.kinds, v.stages,
  v.turns, v.agents, v.backends, safe_exit_code_again,
)

failure_code_again :
    (v : Value) (s : String) → check_failure_code v ≡ ok s → check_failure_code (str s) ≡ ok s
unfolding check_failure_code
failure_code_again (str t) s h = ground arith
failure_code_again _ s h = cc

pub make_failure-IsFailure :
    (is_digit : Char → Bool) (code message stage turn agent backend kind reason exit retry : Value)
    (f : SessionFailure)
    → make_failure is_digit code message stage turn agent backend kind reason exit retry ≡ ok f
    → IsFailure is_digit f
unfolding make_failure
make_failure-IsFailure is_digit code message stage turn agent backend kind reason exit retry f h =
    record {
      codes = ground (arith, failure_code_again code f.code);
      messages = ground arith;
      reasons = ground (arith, safe_stop_reason_again reason f.provider_stop_reason);
      seconds = ground (arith, safe_retry_after_again retry f.retry_after_seconds);
      kinds = optional_kind f.outcome;
      stages = optional_stage stage f.stage_index (ground arith);
      turns =
          optional_again (check_turn_id is_digit) (check_turn_id_again is_digit) turn f.turn_id
            (ground arith);
      agents = optional_again check_agent check_agent_again agent f.agent_id (ground arith);
      backends = optional_again check_backend check_backend_again backend f.backend (ground arith);
    }

-- A failure that the constructor accepted, on any values, reads back from its wire form unchanged.
pub failure_reload :
    (is_digit : Char → Bool) (code message stage turn agent backend kind reason exit retry : Value)
    (f : SessionFailure)
    → make_failure is_digit code message stage turn agent backend kind reason exit retry ≡ ok f
    → failure_from_dict is_digit (obj (failure_to_dict f)) ≡ ok f
failure_reload is_digit code message stage turn agent backend kind reason exit retry f h =
    IsFailure-reload is_digit f (
      make_failure-IsFailure is_digit code message stage turn agent backend kind reason exit retry f
        h)

-- The failure of a turn keeps the fields of its record.
abbrev pub failure_of : TurnOutcomeRecord → ℤ → String → SessionFailure
failure_of r stage code = record {
  code = code;
  message = r.message;
  stage_index = some stage;
  turn_id = some r.turn_id;
  agent_id = some r.agent_id;
  backend = some r.backend;
  outcome = some r.outcome;
  provider_stop_reason = r.provider_stop_reason;
  process_exit_code = r.process_exit_code;
  retry_after_seconds = r.retry_after_seconds;
}

stage_of_record :
    (is_digit : Char → Bool) (turn stage agent backend kind code message reason exit retry : Value)
    (r : TurnOutcomeRecord)
    → make_record is_digit turn stage agent backend kind code message reason exit retry ≡ ok r
    → (r.stage_index ≡ stage) × (check_stage stage ≡ ok tt)
unfolding make_record
stage_of_record is_digit turn stage agent backend kind code message reason exit retry r h =
    ground arith

stage_accepted : (z : ℤ) → check_stage (int z) ≡ ok tt → check_failure_stage (int z) ≡ ok z
unfolding check_stage check_failure_stage
stage_accepted z h = ground arith

failure_code_accepted :
    (c m : String) → message_of_code c ≡ some m → check_failure_code (str c) ≡ ok c
unfolding check_failure_code
failure_code_accepted c m h = rw (h, check_failure_code)

check_message_null : (m : Option String) → check_message null m ≡ ok tt
unfolding check_message
check_message_null m = refl

from_record_runs :
    (is_digit : Char → Bool) (r : TurnOutcomeRecord) (stage : ℤ) (c m : String)
    → IsRecord is_digit r
    → r.stage_index ≡ int stage
    → check_stage (int stage) ≡ ok tt
    → r.code ≡ some c
    → message_of_code c ≡ some m
    → r.message ≡ some m
    → from_record is_digit r ≡ ok (failure_of r stage c)
unfolding from_record optional
from_record_runs is_digit r stage c m v es hs ec hm em =
    rw (ec, from_record)
      (simp (
        es,
        em,
        failure_code_accepted c m hm,
        hm,
        check_message_null,
        v.canonical.reasons,
        v.canonical.seconds,
        parse_kind-kind_name,
        stage_accepted stage hs,
        v.turn,
        v.agent,
        v.backend_name,
        safe_exit_code_again,
      ))

-- The record of a turn that did not complete makes a failure, and that failure keeps its fields.
pub IsRecord-from_record :
    (is_digit : Char → Bool) (r : TurnOutcomeRecord) (stage : ℤ)
    → IsRecord is_digit r
    → r.stage_index ≡ int stage
    → r.outcome ≢ completed
    → (c : String) × (r.code ≡ some c) × (from_record is_digit r ≡ ok (failure_of r stage c))
IsRecord-from_record is_digit r stage v es ne = elim (matching (outcome_of r) v.canonical) [
  | inl done ↦ absurd (ne done.0)
  | inr failed ↦ (
    failed.0,
    failed.3,
    from_record_runs is_digit r stage failed.0 failed.1 v es (ap check_stage (sym es) ∙ v.stage)
        failed.3 failed.4 failed.5,
  )
]

-- Every accepted record of a turn that did not complete, with an int for its stage, makes a session
-- failure, and that failure keeps all of the record's fields.
pub from_record_total :
    (is_digit : Char → Bool) (turn agent backend kind code message reason exit retry : Value)
    (stage : ℤ) (r : TurnOutcomeRecord)
    → make_record is_digit turn (int stage) agent backend kind code message reason exit retry ≡ ok r
    → r.outcome ≢ completed
    → (c : String) × (r.code ≡ some c) × (from_record is_digit r ≡ ok (failure_of r stage c))
from_record_total is_digit turn agent backend kind code message reason exit retry stage r h ne =
    IsRecord-from_record is_digit r stage
      (make_record-IsRecord is_digit turn (int stage) agent backend kind code message reason exit
        retry r h)
      (stage_of_record is_digit turn (int stage) agent backend kind code message reason exit retry r
        h).0
      ne
