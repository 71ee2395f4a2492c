-- ===== src/Outcomes/Totality.antt =====
-- `resolve` always has an outcome for evidence whose codes are in the vocabulary.
use agent_collab.Base.{
  String, ◌≡◌, refl, Bool, true, false, not, Option, none, some, List, [], ◌∷◌, All, Result, ok,
  if◌then◌else◌,
}
use agent_collab.Base.Values.{str, ℤ, Float}
use agent_collab.Outcomes.Codes.{completed, failed, kind_name, message_of_code}
use agent_collab.Outcomes.Fields.{
  canonical_message, of_text, of_int, of_float, check_message, safe_stop_reason, safe_retry_after,
  safe_exit_code, parse_kind, seconds_in_range,
}
use agent_collab.Outcomes.Turn.{TurnOutcome, make_outcome, check_code}
use agent_collab.Outcomes.Canonical.{parse_kind-kind_name, text_of-of_text}
use agent_collab.Outcomes.Resolution.{parse_failed}
use agent_collab.Outcomes.Evidence.{
  TerminalEvidence, to_outcome, exit_failed, failure, success, is_completed, resolve,
}

abbrev pub Returns : Result TurnOutcome → Type 0
Returns r = (o : TurnOutcome) × (r ≡ ok o)

-- Evidence whose code is in the vocabulary and fits its kind.
pub record IsSound (e : TerminalEvidence) : Type 0 where
  pub message : Option String
  pub known : canonical_message (of_text e.code) ≡ ok message
  pub fits : check_code e.outcome e.code ≡ ok tt

either_runs :
    (b : Bool) (s t : Option String) → (x : Option String) × ((if b then ok s else ok t) ≡ ok x)
either_runs true s t = (s, refl)
either_runs false s t = (t, refl)

stop_reason_runs : (s : Option String) → (t : Option String) × (safe_stop_reason (of_text s) ≡ ok t)
unfolding safe_stop_reason
stop_reason_runs none = (none, refl)
stop_reason_runs (some s) = either_runs _ none (some s)

retry_after_runs : (f : Option Float) → (g : Option Float) × (safe_retry_after (of_float f) ≡ ok g)
unfolding safe_retry_after
retry_after_runs none = (none, refl)
retry_after_runs (some f) = (seconds_in_range f, refl)

to_outcome_runs : (e : TerminalEvidence) (exit : Option ℤ) → IsSound e → Returns (to_outcome e exit)
unfolding to_outcome make_outcome check_message
to_outcome_runs e exit sound =
    let (t, et) = stop_reason_runs e.provider_stop_reason in
    let (g, eg) = retry_after_runs e.retry_after_seconds in
    (
      record {
        outcome = e.outcome;
        code = e.code;
        message = sound.message;
        provider_stop_reason = t;
        process_exit_code = safe_exit_code (of_int exit);
        retry_after_seconds = g;
      },
      simp (parse_kind-kind_name, sound.known, et, eg, text_of-of_text, sound.fits),
    )

choose :
    (b : Bool) {x y : Result TurnOutcome} → Returns x → Returns y → Returns (if b then x else y)
choose true p q = p
choose false p q = q

parse_completed : parse_kind (str "completed") ≡ ok completed
unfolding kind_name
parse_completed = parse_kind-kind_name completed

known_message :
    (code m : String) → message_of_code code ≡ some m → canonical_message (str code) ≡ ok (some m)
unfolding canonical_message
known_message code m h = rw (h, canonical_message)

failure_runs :
    (code m : String) (exit : Option ℤ)
    → message_of_code code ≡ some m
    → Returns (failure code exit)
unfolding make_outcome check_message safe_stop_reason safe_retry_after check_code
failure_runs code m exit h = (
  record {
    outcome = failed;
    code = some code;
    message = some m;
    provider_stop_reason = none;
    process_exit_code = safe_exit_code (of_int exit);
    retry_after_seconds = none;
  },
  simp (parse_failed, known_message code m h),
)

success_runs : (exit : Option ℤ) → Returns (success exit)
unfolding make_outcome check_message safe_stop_reason safe_retry_after check_code canonical_message
success_runs exit = (
  record {
    outcome = completed;
    code = none;
    message = none;
    provider_stop_reason = none;
    process_exit_code = safe_exit_code (of_int exit);
    retry_after_seconds = none;
  },
  simp parse_completed,
)

-- An exception code, if any, is in the vocabulary.
abbrev pub IsKnown : Option String → Type 0
IsKnown none = Unit
IsKnown (some code) = (m : String) × (message_of_code code ≡ some m)

built_in :
    (exit : Option ℤ)
    → Returns (failure "provider_protocol_conflict" exit)
      × Returns (failure "subprocess_exit_nonzero" exit)
      × Returns (failure "provider_empty_response" exit)
      × Returns (failure "provider_output_incomplete" exit)
unfolding message_of_code
built_in exit = (
  failure_runs "provider_protocol_conflict" _ exit refl,
  failure_runs "subprocess_exit_nonzero" _ exit refl,
  failure_runs "provider_empty_response" _ exit refl,
  failure_runs "provider_output_incomplete" _ exit refl,
)

-- If each piece of evidence is from the vocabulary and fits its kind, and the exception code, if any,
-- is from the vocabulary, then `resolve` never raises: every combination of exit code, exception and
-- end of output has an outcome.
pub resolve_total :
    (held : List TerminalEvidence) (exit : Option ℤ) (exception : Option String)
    (clean_eof produced : Bool)
    → All IsSound held
    → IsKnown exception
    → (o : TurnOutcome) × (resolve held exit exception clean_eof produced ≡ ok o)
unfolding resolve
resolve_total [] exit none true true s k =
    choose (exit_failed exit) (built_in exit).1 (success_runs exit)
resolve_total [] exit none true false s k =
    choose (exit_failed exit) (built_in exit).1 (built_in exit).2
resolve_total [] exit none false produced s k =
    choose (exit_failed exit) (built_in exit).1 (built_in exit).3
resolve_total [] exit (some code) clean_eof produced s k = failure_runs code k.0 exit k.1
resolve_total (e ∷ []) exit none clean_eof produced s k =
    choose (not (is_completed e.outcome)) (to_outcome_runs e exit s.0)
      (choose (exit_failed exit) (built_in exit).1 (to_outcome_runs e exit s.0))
resolve_total (e ∷ []) exit (some code) clean_eof produced s k =
    choose (not (is_completed e.outcome)) (to_outcome_runs e exit s.0)
      (failure_runs code k.0 exit k.1)
resolve_total (e ∷ f ∷ more) exit exception clean_eof produced s k = (built_in exit).0
