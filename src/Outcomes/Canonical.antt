-- ===== src/Outcomes/Canonical.antt =====
-- What the constructor of `TurnOutcome` guarantees, and that it leaves its own results unchanged.
use agent_collab.Base.{String, ◌≡◌, refl, Option, none, some, arith, ok, eq_iff}
use agent_collab.Base.Values.{Value, null, int, float, str, ℤ, Float}
use agent_collab.Outcomes.Codes.{Kind, kind_name, kind_of_name-kind_name}
use agent_collab.Outcomes.Fields.{
  parse_kind, canonical_message, text_of, of_text, check_message, safe_stop_reason, safe_exit_code,
  safe_retry_after, seconds_in_range, of_int, of_float,
}
use agent_collab.Outcomes.Turn.{TurnOutcome, check_code, make_outcome}

-- The fields of an outcome fit together.
pub record IsCanonical (o : TurnOutcome) : Type 0 where
  pub messages : canonical_message (of_text o.code) ≡ ok o.message
  pub codes : check_code o.outcome o.code ≡ ok tt
  pub reasons : safe_stop_reason (of_text o.provider_stop_reason) ≡ ok o.provider_stop_reason
  pub seconds : safe_retry_after (of_float o.retry_after_seconds) ≡ ok o.retry_after_seconds

pub parse_kind-kind_name : (k : Kind) → parse_kind (str (kind_name k)) ≡ ok k
unfolding parse_kind
parse_kind-kind_name k = rw (kind_of_name-kind_name k, parse_kind)

canonical_message_again :
    (code : Value) (m : Option String)
    → canonical_message code ≡ ok m
    → canonical_message (of_text (text_of code)) ≡ ok m
unfolding canonical_message
canonical_message_again null m h = h
canonical_message_again (str s) m h = h
canonical_message_again _ m h = cc

pub safe_stop_reason_again :
    (v : Value) (s : Option String)
    → safe_stop_reason v ≡ ok s
    → safe_stop_reason (of_text s) ≡ ok s
unfolding safe_stop_reason
safe_stop_reason_again (str t) s h = ground arith
safe_stop_reason_again null s h = ground arith
safe_stop_reason_again v s h = ground arith

pub seconds_in_range_again :
    (f : Float) (g : Float) → seconds_in_range f ≡ some g → seconds_in_range g ≡ some g
unfolding seconds_in_range
seconds_in_range_again f g h = ground arith

pub safe_retry_after_again :
    (v : Value) (s : Option Float)
    → safe_retry_after v ≡ ok s
    → safe_retry_after (of_float s) ≡ ok s
unfolding safe_retry_after
safe_retry_after_again (int z) s h = ground arith
safe_retry_after_again (float f) s h = ground arith
safe_retry_after_again _ s h = ground arith

pub safe_exit_code_again : (z : Option ℤ) → safe_exit_code (of_int z) ≡ z
unfolding safe_exit_code
safe_exit_code_again none = refl
safe_exit_code_again (some z) = refl

pub text_of-of_text : (s : Option String) → text_of (of_text s) ≡ s
text_of-of_text none = refl
text_of-of_text (some s) = refl

pub check_message_again : (m : Option String) → check_message (of_text m) m ≡ ok tt
unfolding check_message
check_message_again none = refl
check_message_again (some m) = ground (arith, eq_iff m m)

-- An outcome that the constructor returns is canonical.
pub make_outcome-IsCanonical :
    (kind code message reason exit retry : Value) (o : TurnOutcome)
    → make_outcome kind code message reason exit retry ≡ ok o
    → IsCanonical o
unfolding make_outcome
make_outcome-IsCanonical kind code message reason exit retry o h = record {
  messages = ground (arith, canonical_message_again code o.message);
  codes = ground arith;
  reasons = ground (arith, safe_stop_reason_again reason o.provider_stop_reason);
  seconds = ground (arith, safe_retry_after_again retry o.retry_after_seconds);
}

-- Making a canonical outcome again from its own fields changes nothing.
pub make_outcome_again :
    (o : TurnOutcome)
    → IsCanonical o
    → make_outcome
        (str (kind_name o.outcome))
        (of_text o.code)
        (of_text o.message)
        (of_text o.provider_stop_reason)
        (of_int o.process_exit_code)
        (of_float o.retry_after_seconds)
      ≡ ok o
unfolding make_outcome
make_outcome_again o c = simp (
  parse_kind-kind_name, c.messages, check_message_again, c.reasons, c.seconds, safe_exit_code_again,
  text_of-of_text, c.codes,
)
