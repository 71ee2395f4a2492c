-- ===== src/Referee/Verdicts.antt =====
-- Every turn gets an outcome, and a completed one only from its runner.
use agent_collab.Base.{
  String, ◌≡◌, ◌≢◌, refl, ap, ◌∙◌, Bool, true, false, not, ◌&&◌, Option, none, some, arith,
  if◌then◌else◌, Result, ok,
}
use agent_collab.Base.Values.{null, str}
use agent_collab.Outcomes.Codes.{Kind, completed, interrupted, timed_out, failed, kind_name}
use agent_collab.Outcomes.Turn.{TurnOutcome, make_outcome}
use agent_collab.Outcomes.Canonical.{IsCanonical, make_outcome-IsCanonical}
use agent_collab.Referee.Arbitration.{
  RunnerEnd, still_running, runner_cancelled, runner_raised, returned, Wake, is_running, local_end,
  unexpected_cancel, local_outcome, or_local, cut_outcome, outcome_by, arbitrate,
}

abbrev local_turn : Kind → (code message : String) → TurnOutcome
local_turn kind code message = record {
  outcome = kind;
  code = some code;
  message = some message;
  provider_stop_reason = none;
  process_exit_code = none;
  retry_after_seconds = none;
}

abbrev unexpected : TurnOutcome
unexpected =
    local_turn failed "referee_cancelled_unexpected"
      "The turn supervisor was cancelled unexpectedly"

abbrev stopped_turn : TurnOutcome
stopped_turn =
    local_turn interrupted "local_turn_interrupted"
      "The turn was interrupted by an explicit session stop"

abbrev late_turn : TurnOutcome
late_turn = local_turn timed_out "local_turn_timed_out" "The turn exceeded its local deadline"

abbrev lost_turn : TurnOutcome
lost_turn = local_turn failed "provider_transport_failed" "The provider transport failed"

unexpected_made : local_end "failed" "referee_cancelled_unexpected" ≡ ok unexpected
unfolding make_outcome agent_collab.Outcomes.Fields.parse_kind
    agent_collab.Outcomes.Codes.kind_of_name agent_collab.Outcomes.Fields.canonical_message
    agent_collab.Outcomes.Codes.message_of_code agent_collab.Outcomes.Fields.check_message
    agent_collab.Outcomes.Fields.safe_stop_reason agent_collab.Outcomes.Fields.safe_retry_after
    agent_collab.Outcomes.Turn.check_code agent_collab.Outcomes.Fields.safe_exit_code
unexpected_made = refl

stopped_made : local_end "interrupted" "local_turn_interrupted" ≡ ok stopped_turn
unfolding make_outcome agent_collab.Outcomes.Fields.parse_kind
    agent_collab.Outcomes.Codes.kind_of_name agent_collab.Outcomes.Fields.canonical_message
    agent_collab.Outcomes.Codes.message_of_code agent_collab.Outcomes.Fields.check_message
    agent_collab.Outcomes.Fields.safe_stop_reason agent_collab.Outcomes.Fields.safe_retry_after
    agent_collab.Outcomes.Turn.check_code agent_collab.Outcomes.Fields.safe_exit_code
stopped_made = refl

late_made : local_end "timed_out" "local_turn_timed_out" ≡ ok late_turn
unfolding make_outcome agent_collab.Outcomes.Fields.parse_kind
    agent_collab.Outcomes.Codes.kind_of_name agent_collab.Outcomes.Fields.canonical_message
    agent_collab.Outcomes.Codes.message_of_code agent_collab.Outcomes.Fields.check_message
    agent_collab.Outcomes.Fields.safe_stop_reason agent_collab.Outcomes.Fields.safe_retry_after
    agent_collab.Outcomes.Turn.check_code agent_collab.Outcomes.Fields.safe_exit_code
late_made = refl

lost_made : local_end "failed" "provider_transport_failed" ≡ ok lost_turn
unfolding make_outcome agent_collab.Outcomes.Fields.parse_kind
    agent_collab.Outcomes.Codes.kind_of_name agent_collab.Outcomes.Fields.canonical_message
    agent_collab.Outcomes.Codes.message_of_code agent_collab.Outcomes.Fields.check_message
    agent_collab.Outcomes.Fields.safe_stop_reason agent_collab.Outcomes.Fields.safe_retry_after
    agent_collab.Outcomes.Turn.check_code agent_collab.Outcomes.Fields.safe_exit_code
lost_made = refl

-- The outcome of a turn is canonical, it is completed only if the runner returned it, and it is failed
-- if the wait was cancelled without a stop.
pub record IsVerdict (w : Wake) (o : TurnOutcome) : Type 0 where
  pub canonical : IsCanonical o
  pub own : o.outcome ≡ completed → w.runner ≡ returned o
  pub cancelled : unexpected_cancel w ≡ true → o.outcome ≡ failed

abbrev Judges : Wake → Result TurnOutcome → Type 0
Judges w r = (o : TurnOutcome) × (r ≡ ok o) × IsVerdict w o

local_verdict :
    (w : Wake) (kind code : String) (o : TurnOutcome)
    → local_end kind code ≡ ok o
    → o.outcome ≢ completed
    → (unexpected_cancel w ≡ true → o.outcome ≡ failed)
    → Judges w (local_end kind code)
local_verdict w kind code o made other failing = (
  o,
  made,
  record {
    canonical = make_outcome-IsCanonical (str kind) (str code) null null null null o made;
    own = λ e. absurd (other e);
    cancelled = failing;
  },
)

unexpected-Judges : (w : Wake) → Judges w (local_end "failed" "referee_cancelled_unexpected")
unexpected-Judges w =
    local_verdict w "failed" "referee_cancelled_unexpected" unexpected unexpected_made (λ e. cc)
      (λ c. refl)

cut_outcome-Judges : (w : Wake) → unexpected_cancel w ≡ false → Judges w (cut_outcome w)
unfolding cut_outcome
cut_outcome-Judges w quiet = go w.deadline_done w.stop_done
  where
    not_cancelled : (o : TurnOutcome) → unexpected_cancel w ≡ true → o.outcome ≡ failed
    not_cancelled o c = cc (quiet, c)

    go :
        (deadline stop : Bool)
        → Judges w (
            if deadline
            then local_end "timed_out" "local_turn_timed_out"
            else if stop
            then local_end "interrupted" "local_turn_interrupted"
            else local_end "failed" "referee_cancelled_unexpected")
    go true stop =
        local_verdict w "timed_out" "local_turn_timed_out" late_turn late_made (λ e. cc)
          (not_cancelled late_turn)
    go false true =
        local_verdict w "interrupted" "local_turn_interrupted" stopped_turn stopped_made (λ e. cc)
          (not_cancelled stopped_turn)
    go false false = unexpected-Judges w

still_running-Judges :
    (w : Wake) → w.runner ≡ still_running → Judges w (or_local (local_outcome w) (cut_outcome w))
unfolding local_outcome unexpected_cancel cut_outcome
still_running-Judges w running =
    go w.wait_cancelled w.stop_set (is_running w.runner) refl refl (ap is_running running)
  where
    go :
        (cancelled stop live : Bool)
        → w.wait_cancelled ≡ cancelled
        → w.stop_set ≡ stop
        → live ≡ true
        → Judges w (
            or_local
              (if cancelled && live
                then (if stop
                    then some (local_end "interrupted" "local_turn_interrupted")
                    else some (local_end "failed" "referee_cancelled_unexpected"))
                else none)
              (cut_outcome w))
    go cancelled stop false c s l = cc
    go true true true c s l =
        local_verdict w "interrupted" "local_turn_interrupted" stopped_turn stopped_made (λ e. cc)
          (λ u. absurd (quiet u))
      where
        quiet : (w.wait_cancelled && is_running w.runner && not w.stop_set) ≡ true → ⊥
        quiet u = ground arith
    go true false true c s l = unexpected-Judges w
    go false stop true c s l = cut_outcome-Judges w (rw c refl)

no_cancel : (w : Wake) → is_running w.runner ≡ false → unexpected_cancel w ≡ false
unfolding unexpected_cancel
no_cancel w h = ground arith

no_local : (w : Wake) → is_running w.runner ≡ false → local_outcome w ≡ none
unfolding local_outcome
no_local w h = ground arith

-- Whatever ends the wait for a turn, arbitration gives the turn an outcome and never raises. The outcome
-- is canonical if the runner's own is, it is completed only if the runner returned it, and it is failed
-- if the wait was cancelled without a registered stop while the runner was still running.
pub arbitrate-IsVerdict :
    (w : Wake)
    → ((o : TurnOutcome) → w.runner ≡ returned o → IsCanonical o)
    → (o : TurnOutcome) × (arbitrate w ≡ ok o) × IsVerdict w o
unfolding arbitrate outcome_by
arbitrate-IsVerdict w sound = go w.runner refl
  where
    calm : (r : RunnerEnd) → w.runner ≡ r → is_running r ≡ false → unexpected_cancel w ≡ false
    calm r e f = no_cancel w (ap is_running e ∙ f)

    go : (r : RunnerEnd) → w.runner ≡ r → Judges w (outcome_by w r)
    go (returned o) e = (
      o,
      refl,
      record {
        canonical = sound o e;
        own = λ c. e;
        cancelled = λ u. cc (u, calm (returned o) e refl);
      },
    )
    go runner_raised e =
        local_verdict w "failed" "provider_transport_failed" lost_turn lost_made (λ k. cc)
          (λ u. refl)
    go still_running e = still_running-Judges w e
    go runner_cancelled e = cancelled_runner (local_outcome w) (no_local w (ap is_running e))
      where
        cancelled_runner :
            (o : Option (Result TurnOutcome))
            → o ≡ none
            → Judges w (or_local o (local_end "failed" "referee_cancelled_unexpected"))
        cancelled_runner none k = unexpected-Judges w
        cancelled_runner (some o) k = cc
