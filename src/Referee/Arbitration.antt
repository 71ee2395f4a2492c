-- ===== src/Referee/Arbitration.antt =====
-- How `_run_agent_turn` of agent_collab/referee.py decides what a turn's outcome is, once its runner,
-- its deadline or a stop has ended the wait, or the wait was cancelled.
use agent_collab.Base.{
  String, Bool, true, false, not, ◌&&◌, Option, none, some, if◌then◌else◌, Result, ok,
}
use agent_collab.Base.Values.{null, str}
use agent_collab.Outcomes.Turn.{TurnOutcome, make_outcome}

-- The runner's task: not done, or done with a result, by a cancellation or by an exception.
pub data RunnerEnd : Type 0 where
  still_running runner_cancelled runner_raised : RunnerEnd
  returned : TurnOutcome → RunnerEnd

-- What `_run_agent_turn` finds: the three tasks, the stop signal, and whether its own wait was
-- cancelled.
pub record Wake : Type 0 where
  pub runner : RunnerEnd
  pub deadline_done : Bool
  pub stop_done : Bool
  pub stop_set : Bool
  pub wait_cancelled : Bool

abbrev pub is_running : RunnerEnd → Bool
is_running still_running = true
is_running _ = false

-- TurnOutcome(kind, code)
abbrev pub local_end : (kind code : String) → Result TurnOutcome
local_end kind code = make_outcome (str kind) (str code) null null null null

-- `unexpected_cancel`
unfoldable pub unexpected_cancel : Wake → Bool
unexpected_cancel w = w.wait_cancelled && is_running w.runner && not w.stop_set

-- `local_outcome` after the wait
unfoldable pub local_outcome : Wake → Option (Result TurnOutcome)
local_outcome w =
    if w.wait_cancelled && is_running w.runner
    then (if w.stop_set
        then some (local_end "interrupted" "local_turn_interrupted")
        else some (local_end "failed" "referee_cancelled_unexpected"))
    else none

abbrev pub or_local : Option (Result TurnOutcome) → Result TurnOutcome → Result TurnOutcome
or_local (some o) other = o
or_local none other = other

-- The outcome of a turn whose runner is not done.
unfoldable pub cut_outcome : Wake → Result TurnOutcome
cut_outcome w =
    if w.deadline_done
    then local_end "timed_out" "local_turn_timed_out"
    else if w.stop_done
    then local_end "interrupted" "local_turn_interrupted"
    else local_end "failed" "referee_cancelled_unexpected"

unfoldable pub outcome_by : Wake → RunnerEnd → Result TurnOutcome
unfolding local_outcome cut_outcome
outcome_by w (returned o) = ok o
outcome_by w runner_cancelled =
    or_local (local_outcome w) (local_end "failed" "referee_cancelled_unexpected")
outcome_by w runner_raised = local_end "failed" "provider_transport_failed"
outcome_by w still_running = or_local (local_outcome w) (cut_outcome w)

-- The outcome of the turn.
unfoldable pub arbitrate : Wake → Result TurnOutcome
unfolding outcome_by
arbitrate w = outcome_by w w.runner
