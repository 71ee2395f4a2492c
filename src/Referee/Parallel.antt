-- ===== src/Referee/Parallel.antt =====
-- A parallel stage: `_run_parallel_stage` of agent_collab/referee.py. The members' turns overlap; the
-- order in which they start, speak and end is a list of steps. No agent is a member twice, as
-- agent_collab/config.py demands of a parallel workflow.
use Prim.Native.Char.{Char}
use Prim.Native.String.{◌++◌ as ◌<>◌}
use agent_collab.Base.{
  ℕ, String, Bool, true, false, ◌&&◌, Option, none, some, List, [], ◌∷◌, ◌++◌, map, select, length,
  if◌then◌else◌, runtime_error,
}
use agent_collab.Base.Text.{decimal, member}
use agent_collab.Base.Dict.{Dict, get, put}
use agent_collab.Base.Values.{bool, int, pos, str, arr, obj, Fields, end, field, Items, cons, nil}
use agent_collab.Events.{Event}
use agent_collab.Outcomes.Codes.{kind_name}
use agent_collab.Outcomes.Evidence.{is_completed}
use agent_collab.Outcomes.Records.{TurnOutcomeRecord}
use agent_collab.Sessions.Answers.{is_message}
use agent_collab.Sessions.Turns.{begin_turn, emit}
use agent_collab.Referee.Prompts.{parallel_prompt_for}
use agent_collab.Referee.Arbitration.{Wake}
use agent_collab.Referee.Progress.{
  Progress, Halt, required_failed, parallel_failed, cancelled, broken, Run, going, halted, Setup,
  allocate_occurrence, log_event,
}
use agent_collab.Referee.Supervision.{
  attributed, TurnResult, returned, raised, with_active, close_turn, turn_record,
}

-- The task of a member: not started, in its turn, or done. A turn that raised RequiredTurnFailed
-- counts with its record.
pub data Phase : Type 0 where
  waiting : (turn_id : String) → Phase
  running : (turn_id : String) (span_start : ℕ) → Phase
  recorded : TurnOutcomeRecord → Phase
  fell : Halt → Phase

-- A stage that runs: `produced` is `produced_messages`.
pub record Stage : Type 0 where
  pub progress : Progress
  pub phases : Dict Phase
  pub produced : List String

-- What one member does next.
pub data MemberStep : Type 0 where
  starts : (agent : String) → MemberStep
  says : (agent : String) → Event → MemberStep
  ends : (agent : String) (wake : Wake) (stop_after : Bool) (now : String) → MemberStep

-- `occurrences`
unfoldable pub allocate_all : Progress → List String → Dict Phase × Progress
unfolding allocate_occurrence
allocate_all p [] = ([], p)
allocate_all p (agent ∷ members) =
    let (turn_id, allocated) = allocate_occurrence p in
    let (rest, last) = allocate_all allocated members in ((agent, waiting turn_id) ∷ rest, last)

abbrev pub progress_of : TurnResult → Progress
progress_of (returned p r) = p
progress_of (raised p h) = p

abbrev pub phase_of : TurnResult → Phase
phase_of (returned p r) = recorded r
phase_of (raised p (required_failed r)) = recorded r
phase_of (raised p h) = fell h

-- The watermarks and prompts of a stage: every member gets the one prompt.
unfoldable pub share_prompt : (marks : Dict ℕ) (snapshot : ℕ) → List String → Dict ℕ
unfolding put
share_prompt marks snapshot [] = marks
share_prompt marks snapshot (agent ∷ members) =
    share_prompt (put marks agent snapshot) snapshot members

-- The values of the stage's closing event.
unfoldable pub outcome_fields : Dict TurnOutcomeRecord → Fields
unfolding kind_name
outcome_fields [] = end
outcome_fields ((agent, r) ∷ rest) = field agent (str (kind_name r.outcome)) (outcome_fields rest)

abbrev pub name_items : List String → Items
name_items [] = nil
name_items (n ∷ names) = cons (str n) (name_items names)

-- `records`, or what the first member without one raised
pub data Collected : Type 0 where
  all_recorded : Dict TurnOutcomeRecord → Collected
  raising : Halt → Collected

abbrev pub with_record : String → TurnOutcomeRecord → Collected → Collected
with_record agent r (all_recorded rest) = all_recorded ((agent, r) ∷ rest)
with_record agent r (raising h) = raising h

-- The result of one member, before those of the others.
abbrev pub collect_one : String → Option Phase → Collected → Collected
collect_one agent (some (recorded r)) rest = with_record agent r rest
collect_one agent (some (fell h)) rest = raising h
collect_one agent _ rest = raising (broken runtime_error)

unfoldable pub collect : Dict Phase → List String → Collected
collect phases [] = all_recorded []
collect phases (agent ∷ members) = collect_one agent (get phases agent) (collect phases members)

abbrev pub is_accepted : Option TurnOutcomeRecord → Bool → Bool
is_accepted none produced = false
is_accepted (some r) produced = is_completed r.outcome && produced

-- `accepted`
unfoldable pub accepted_members :
    Dict TurnOutcomeRecord → (produced members : List String) → List String
unfolding get
accepted_members records produced members =
    select (λ a. is_accepted (get records a) (member a produced)) members

-- `if not accepted: raise ParallelStageFailed(stage_index)`
abbrev pub require_accepted : Progress → (stage_index : ℕ) → List String → Run
require_accepted p stage_index [] = halted p (parallel_failed stage_index)
require_accepted p stage_index (a ∷ accepted) = going p

module _ (is_digit : Char → Bool) (setup : Setup) (stage_index : ℕ) where
  -- One step of a member in a phase. A task does nothing that its phase does not allow.
  unfoldable pub member_step : Stage → MemberStep → Option Phase → Stage
  unfolding begin_turn emit close_turn turn_record is_message put
  member_step s (starts agent) (some (waiting turn_id)) = record s {
    progress = record s.progress { trace = begin_turn s.progress.trace agent };
    phases = put s.phases agent (running turn_id (length s.progress.trace.transcript));
  }
  member_step s (says agent e) (some (running turn_id span_start)) = record s {
    progress = record s.progress { trace = emit s.progress.trace (attributed agent e) };
    produced = if is_message e then agent ∷ s.produced else s.produced;
  }
  member_step s (ends agent wake stop_after now) (some (running turn_id span_start)) =
      let result =
        close_turn
          (record {
            before = [];
            cut_before = false;
            said = [];
            wake = wake;
            cut_cleanup = false;
            stop_after = stop_after;
            conversation = false;
            now = now;
          })
          s.progress span_start (turn_record is_digit setup turn_id stage_index agent wake) in
      record s { progress = progress_of result; phases = put s.phases agent (phase_of result) }
  member_step s step phase = s

  abbrev pub agent_of : MemberStep → String
  agent_of (starts agent) = agent
  agent_of (says agent e) = agent
  agent_of (ends agent wake stop_after now) = agent

  unfoldable pub run_members : Stage → List MemberStep → Stage
  unfolding member_step get
  run_members s [] = s
  run_members s (step ∷ steps) =
      run_members (member_step s step (get s.phases (agent_of step))) steps

  -- The closing event of the stage.
  unfoldable pub log_stage :
      (now : String) (members : List String)
      → Progress
      → Dict TurnOutcomeRecord
      → (accepted : List String) → Progress
  unfolding log_event outcome_fields
  log_stage now members p records accepted =
      log_event p now "referee" "status"
        ("stage "
          <> (decimal stage_index
              <> (" (parallel) completed: "
                  <> (decimal (length accepted)
                      <> ("/" <> (decimal (length members) <> " accepted"))))))
        (obj (
          field "stage" (int (pos stage_index)) (
            field "parallel" (bool true) (
              field "members" (obj (outcome_fields records))
                (field "accepted_members" (arr (name_items accepted)) end)))))
        none

  -- The end of the stage, from the records of its members.
  unfoldable pub judge_stage :
      (now : String) (members : List String) → Progress → (produced : List String) → Collected → Run
  unfolding accepted_members log_stage
  judge_stage now members p produced (raising h) = halted p h
  judge_stage now members p produced (all_recorded records) =
      let accepted = accepted_members records produced members in
      require_accepted (log_stage now members p records accepted) stage_index accepted

  -- The start of the stage: prompts, watermarks and occurrences.
  unfoldable pub open_stage :
      (upper : String → String) (task : String) → Progress → (members : List String) → Stage
  unfolding share_prompt allocate_all parallel_prompt_for
  open_stage upper task p members =
      let prompt = parallel_prompt_for upper task p.trace.transcript in
      let prompted = record p {
        watermarks = share_prompt p.watermarks (length p.trace.transcript) members;
        prompts = p.prompts ++ map (λ a. (a, prompt)) members;
      } in
      let (phases, allocated) = allocate_all prompted members in
      record { progress = with_active allocated true; phases = phases; produced = [] }

  -- _run_parallel_stage. `stopped`: the wait for the members was cancelled, or a stop is registered.
  unfoldable pub run_parallel_stage :
      (upper : String → String) (task : String) (stopped : Bool) (now : String)
      → Progress
      → (members : List String) → List MemberStep
      → Run
  unfolding open_stage run_members judge_stage collect
  run_parallel_stage upper task stopped now p members steps =
      let s = run_members (open_stage upper task p members) steps in
      let quiet = with_active s.progress false in
      if stopped
      then halted quiet cancelled
      else judge_stage now members quiet s.produced (collect s.phases members)
