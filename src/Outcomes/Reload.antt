-- ===== src/Outcomes/Reload.antt =====
-- Records and failures survive their wire form: reading back what `to_dict` wrote gives the same
-- value. A daemon restart reloads both from the session index.
use Prim.Native.Char.{Char}
use agent_collab.Base.{String, ◌≡◌, refl, Bool, arith, ok, if◌then◌else◌, ◌==◌}
use agent_collab.Base.Values.{Value, null, str, obj, Fields, end, field, get_field, put_present}
use agent_collab.Outcomes.Turn.{TurnOutcome, make_outcome}
use agent_collab.Outcomes.Records.{
  TurnOutcomeRecord, check_turn_id, check_stage, check_agent, check_backend, make_record,
  record_to_dict, record_from_dict,
}
use agent_collab.Outcomes.Canonical.{IsCanonical, make_outcome-IsCanonical, make_outcome_again}

-- `v`, or `w` where `v` is None
abbrev pub or_else : Value → Value → Value
or_else null w = w
or_else v w = v

pub or_else_null : (v : Value) → or_else v null ≡ v
or_else_null null = refl
or_else_null _ = refl

pub get_field-put_present :
    (k j : String) (v : Value) (fs : Fields)
    → get_field (put_present k v fs) j
      ≡ (if k == j then or_else v (get_field fs j) else get_field fs j)
unfolding get_field put_present
get_field-put_present k j null fs = ground arith
get_field-put_present k j _ fs = refl

pub get_field-field :
    (k j : String) (v : Value) (fs : Fields)
    → get_field (field k v fs) j ≡ (if k == j then v else get_field fs j)
unfolding get_field
get_field-field k j v fs = refl

pub get_field-end : (j : String) → get_field end j ≡ null
unfolding get_field
get_field-end j = refl

pub ruleset field_laws = (get_field-put_present, get_field-end, get_field-field, or_else_null)

-- The outcome that a record holds.
abbrev pub outcome_of : TurnOutcomeRecord → TurnOutcome
outcome_of r = record {
  outcome = r.outcome;
  code = r.code;
  message = r.message;
  provider_stop_reason = r.provider_stop_reason;
  process_exit_code = r.process_exit_code;
  retry_after_seconds = r.retry_after_seconds;
}

module _ (is_digit : Char → Bool) where
  -- The fields of a record are what its constructor accepts.
  pub record IsRecord (r : TurnOutcomeRecord) : Type 0 where
    pub turn : check_turn_id is_digit (str r.turn_id) ≡ ok r.turn_id
    pub stage : check_stage r.stage_index ≡ ok tt
    pub agent : check_agent (str r.agent_id) ≡ ok r.agent_id
    pub backend_name : check_backend (str r.backend) ≡ ok r.backend
    pub canonical : IsCanonical (outcome_of r)

  pub IsRecord-reload :
      (r : TurnOutcomeRecord)
      → IsRecord r
      → record_from_dict is_digit (obj (record_to_dict r)) ≡ ok r
  unfolding record_from_dict record_to_dict
  IsRecord-reload r v = simp (
    field_laws,
    v.turn,
    v.stage,
    v.agent,
    v.backend_name,
    make_outcome_again (outcome_of r) v.canonical,
  )

  pub check_turn_id_again :
      (v : Value) (s : String)
      → check_turn_id is_digit v ≡ ok s
      → check_turn_id is_digit (str s) ≡ ok s
  unfolding check_turn_id
  check_turn_id_again (str t) s h = ground arith
  check_turn_id_again _ s h = cc

pub check_agent_again : (v : Value) (s : String) → check_agent v ≡ ok s → check_agent (str s) ≡ ok s
unfolding check_agent
check_agent_again (str t) s h = ground arith
check_agent_again _ s h = cc

pub check_backend_again :
    (v : Value) (s : String) → check_backend v ≡ ok s → check_backend (str s) ≡ ok s
unfolding check_backend
check_backend_again (str t) s h = ground arith
check_backend_again _ s h = cc

pub make_record-IsRecord :
    (is_digit : Char → Bool) (turn stage agent backend kind code message reason exit retry : Value)
    (r : TurnOutcomeRecord)
    → make_record is_digit turn stage agent backend kind code message reason exit retry ≡ ok r
    → IsRecord is_digit r
unfolding make_record
make_record-IsRecord is_digit turn stage agent backend kind code message reason exit retry r h =
    let (o, e, same) = made in
    record {
      turn = ground (arith, check_turn_id_again is_digit turn r.turn_id);
      stage = ground arith;
      agent = ground (arith, check_agent_again agent r.agent_id);
      backend_name = ground (arith, check_backend_again backend r.backend);
      canonical = rw same at (make_outcome-IsCanonical kind code message reason exit retry o e);
    }
  where
    made :
        (o : TurnOutcome) × (make_outcome kind code message reason exit retry ≡ ok o)
        × (o ≡ outcome_of r)
    made = ground arith

-- A record that the constructor accepted, on any values, reads back from its wire form unchanged.
pub record_reload :
    (is_digit : Char → Bool) (turn stage agent backend kind code message reason exit retry : Value)
    (r : TurnOutcomeRecord)
    → make_record is_digit turn stage agent backend kind code message reason exit retry ≡ ok r
    → record_from_dict is_digit (obj (record_to_dict r)) ≡ ok r
record_reload is_digit turn stage agent backend kind code message reason exit retry r h =
    IsRecord-reload is_digit r (
      make_record-IsRecord is_digit turn stage agent backend kind code message reason exit retry r
        h)
