-- ===== src/Referee/Supervision.antt =====
-- One turn of one agent: `_run_agent_turn`, `_commit_outcome` and the required turn of a stage, in
-- agent_collab/referee.py.
use Prim.Native.Char.{Char}
use Prim.Native.String.{◌++◌ as ◌<>◌}
use agent_collab.Base.{
  ℕ, String, Bool, true, false, Option, none, some, List, [], ◌∷◌, ◌++◌, any, ◌&&◌, length,
  if◌then◌else◌, ◌==◌, Result, ok, err, ◌>>=◌, runtime_error,
}
use agent_collab.Base.Text.{is_truthy}
use agent_collab.Base.Values.{null, int, pos}
use agent_collab.Events.{Event}
use agent_collab.Outcomes.Codes.{kind_name}
use agent_collab.Outcomes.Evidence.{is_completed}
use agent_collab.Outcomes.Records.{TurnOutcomeRecord, from_outcome}
use agent_collab.Sessions.Turns.{Trace, begin_turn, emit, commit_outcome}
use agent_collab.Referee.Prompts.{build_turn_prompt}
use agent_collab.Referee.Arbitration.{Wake, is_running, arbitrate, unexpected_cancel}
use agent_collab.Referee.Progress.{
  Progress, Halt, required_failed, cancelled, broken, Run, going, halted, Setup, canonical_backend,
  allocate_occurrence, log_event,
}

-- An event that is logged during a turn: its runner emits it, or the daemon posts it.
pub data Spoken : Type 0 where
  own : Event → Spoken
  posted : Event → Spoken

-- What happens around one turn: what is posted before it, and whether the run is cancelled then; what is
-- logged during it; how the wait ends; whether the run is cancelled while it cleans up a runner that is
-- still running; whether a stop is registered, or the run cancelled, once the outcome is committed; and
-- whether the runner continues its provider's conversation.
pub record Turn : Type 0 where
  pub before : List Event
  pub cut_before : Bool
  pub said : List Spoken
  pub wake : Wake
  pub cut_cleanup : Bool
  pub stop_after : Bool
  pub conversation : Bool
  pub now : String

abbrev pub attributed : String → Event → Event
attributed agent e = record e { agent_id = some agent }

-- The events of the runner, which all become its agent's, among those that are posted.
unfoldable pub emit_all : Trace → String → List Spoken → Trace
unfolding emit
emit_all t agent [] = t
emit_all t agent (own e ∷ es) = emit_all (emit t (attributed agent e)) agent es
emit_all t agent (posted e ∷ es) = emit_all (emit t e) agent es

abbrev pub code_text : Option String → String
code_text none = "None"
code_text (some code) = code

abbrev pub detail_of : Option String → Option String → String
detail_of none code = ""
detail_of (some message) code =
    if is_truthy message then ": " <> (message <> (" (" <> (code_text code <> ")"))) else ""

-- The text of a turn's boundary event.
unfoldable pub boundary_text : TurnOutcomeRecord → String
unfolding kind_name
boundary_text r =
    r.turn_id
    <> (" " <> (r.agent_id <> (" " <> (kind_name r.outcome <> detail_of r.message r.code))))

-- How `_run_agent_turn` ends: it returns its record or raises.
pub data TurnResult : Type 0 where
  returned : Progress → TurnOutcomeRecord → TurnResult
  raised : Progress → Halt → TurnResult

abbrev pub with_active : Progress → Bool → Progress
with_active p active = record p { turn_active = active }

-- The `finally` of a turn.
abbrev pub turn_over : TurnResult → TurnResult
turn_over (returned p r) = returned (with_active p false) r
turn_over (raised p h) = raised (with_active p false) h

-- `if record.outcome != "completed": raise RequiredTurnFailed(record)`
unfoldable pub require_turn : TurnResult → Run
require_turn (raised p h) = halted p h
require_turn (returned p r) =
    if is_completed r.outcome then going p else halted p (required_failed r)

-- _commit_outcome, behind its test of the committed ids
unfoldable pub commit_turn :
    Progress → (now : String) → TurnOutcomeRecord → (span_start : ℕ) → Progress
unfolding boundary_text commit_outcome
commit_turn p now r span_start = record p {
  trace = commit_outcome p.trace now (boundary_text r) r span_start;
  turns = p.turns ++ r ∷ [];
}

-- The end of a turn, after its commit.
unfoldable pub after_commit : Turn → Progress → TurnOutcomeRecord → TurnResult
after_commit turn p r =
    if turn.stop_after
    then raised p cancelled
    else if unexpected_cancel turn.wake
    then raised p (required_failed r)
    else returned p r

unfoldable pub close_turn :
    Turn → Progress → (span_start : ℕ) → Result TurnOutcomeRecord → TurnResult
unfolding commit_turn after_commit
close_turn turn p span_start (err e) = raised p (broken e)
close_turn turn p span_start (ok r) =
    if any (λ x. x.turn_id == r.turn_id) p.turns
    then raised p (broken runtime_error)
    else after_commit turn (commit_turn p turn.now r span_start) r

-- `await asyncio.shield(self._cancel_runner_bounded(...))` of a runner that is still running: a
-- cancellation in it leaves the turn without an outcome.
unfoldable pub clean_up : Turn → Progress → TurnResult → TurnResult
clean_up turn p closed =
    if turn.cut_cleanup && is_running turn.wake.runner then raised p cancelled else closed

abbrev pub in_turn : Progress → (agent : String) → Turn → Progress
in_turn p agent turn = record p {
  trace = emit_all (begin_turn p.trace agent) agent turn.said;
  turn_active = true;
}

module _ (is_digit : Char → Bool) (setup : Setup) where
  -- The record of a turn, from the arbitration of its outcome.
  unfoldable pub turn_record :
      (turn_id : String) (stage : ℕ) (agent : String) → Wake → Result TurnOutcomeRecord
  unfolding arbitrate canonical_backend from_outcome
  turn_record turn_id stage agent wake = do
    o ← arbitrate wake
    backend ← canonical_backend setup agent
    from_outcome is_digit turn_id (int (pos stage)) agent backend o

  -- _run_agent_turn
  unfoldable pub run_agent_turn :
      Progress → (agent : String) (stage : ℕ) (turn_id : String) → Turn → TurnResult
  unfolding begin_turn emit_all clean_up close_turn turn_record
  run_agent_turn p agent stage turn_id turn = turn_over (
      clean_up turn (in_turn p agent turn) (
        close_turn turn (in_turn p agent turn) (length p.trace.transcript)
          (turn_record turn_id stage agent turn.wake)))

module _ (upper : String → String) where
  -- Building a prompt and sending it.
  unfoldable pub send_prompt :
      Progress
      → (conversation : Bool) (agent role stateless : String) (question : Option String) → Progress
  unfolding build_turn_prompt
  send_prompt p conversation agent role stateless question =
      let (prompt, marks) =
        build_turn_prompt upper conversation p.trace.transcript p.watermarks agent role stateless
          question in
      record p { watermarks = marks; prompts = p.prompts ++ (agent, prompt) ∷ [] }

module _ (upper : String → String) (is_digit : Char → Bool) (setup : Setup) where
  -- A turn that must complete: the announcement, the prompt, the turn and its test. `stage_of` is the
  -- stage index, from the number of the turn.
  unfoldable pub required_turn :
      Progress
      → (announcement agent role : String) (stateless : List Event → String)
        (question : Option String)
      → (stage_of : ℕ → ℕ) → Turn
      → Run
  unfolding log_event send_prompt allocate_occurrence run_agent_turn require_turn
  required_turn p announcement agent role stateless question stage_of turn =
      let logged = log_event p turn.now "referee" "status" announcement null (some agent) in
      let prompted =
        send_prompt upper logged turn.conversation agent role (stateless logged.trace.transcript)
          question in
      let (turn_id, allocated) = allocate_occurrence prompted in
      if turn.cut_before
      then halted p cancelled
      else require_turn
          (run_agent_turn is_digit setup allocated agent (stage_of prompted.next_turn) turn_id turn)
