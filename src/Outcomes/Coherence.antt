-- ===== src/Outcomes/Coherence.antt =====
-- What a reader of a `TurnOutcome` may rely on, whatever values its constructor was given.
use agent_collab.Base.{
  ◌*◌, ◌^◌, ◌≤◌, ◌<◌, String, ◌≡◌, ◌≢◌, ◌⊎◌, true, false, Option, none, some, arith, ok,
}
use agent_collab.Base.Values.{Value, Float, finite, infinite, nan}
use agent_collab.Outcomes.Codes.{completed, message_of_code, is_stop_reason}
use agent_collab.Outcomes.Fields.{
  canonical_message, of_text, of_float, safe_stop_reason, safe_retry_after,
}
use agent_collab.Outcomes.Turn.{TurnOutcome, check_code, make_outcome}
use agent_collab.Outcomes.Canonical.{IsCanonical, make_outcome-IsCanonical}

-- A completed outcome has no code and no message; any other has a code with its own message.
abbrev pub HasMatchingCode : TurnOutcome → Type 0
HasMatchingCode o =
    ((o.outcome ≡ completed) × (o.code ≡ none) × (o.message ≡ none))
    ⊎ ((c : String) × (m : String) × (o.outcome ≢ completed)
        × (o.code ≡ some c)
        × (message_of_code c ≡ some m)
        × (o.message ≡ some m))

-- A stop reason is on the list.
abbrev pub IsListedReason : Option String → Type 0
IsListedReason none = Unit
IsListedReason (some s) = is_stop_reason s ≡ true

-- Seconds are above 0 and at most a week, or not a number.
abbrev pub IsWithinWeek : Option Float → Type 0
IsWithinWeek none = Unit
IsWithinWeek (some (finite negative n k)) = (negative ≡ false) × (0 < n) × (n ≤ 604800 * 2 ^ k)
IsWithinWeek (some (infinite negative)) = ⊥
IsWithinWeek (some nan) = Unit

pub matching : (o : TurnOutcome) → IsCanonical o → HasMatchingCode o
unfolding canonical_message check_code
matching o c = ground arith

listed : (s : Option String) → safe_stop_reason (of_text s) ≡ ok s → IsListedReason s
unfolding safe_stop_reason
listed none h = tt
listed (some s) h = ground arith

within : (s : Option Float) → safe_retry_after (of_float s) ≡ ok s → IsWithinWeek s
unfolding safe_retry_after
within none h = tt
within (some (finite negative n k)) h = ground arith
within (some (infinite true)) h = ground arith
within (some (infinite false)) h = ground arith
within (some nan) h = tt

-- Whatever values the constructor accepts, the outcome has a code exactly when it is not completed,
-- the code's own canonical message, a listed stop reason if any, and a retry delay, if any, above
-- zero and at most a week, or not a number.
pub make_outcome_coherent :
    (kind code message reason exit retry : Value) (o : TurnOutcome)
    → make_outcome kind code message reason exit retry ≡ ok o
    → HasMatchingCode o × IsListedReason o.provider_stop_reason × IsWithinWeek o.retry_after_seconds
make_outcome_coherent kind code message reason exit retry o h =
    let c = make_outcome-IsCanonical kind code message reason exit retry o h in
    (matching o c, listed o.provider_stop_reason c.reasons, within o.retry_after_seconds c.seconds)
