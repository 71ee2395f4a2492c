-- ===== src/Referee/Interaction.antt =====
-- The stages of a run and the follow-up messages between and after them: `_process_input_item`,
-- `_process_pending_inputs`, `_await_interactive_input` and `_run_stages` of agent_collab/referee.py,
-- for workflows whose stages have one agent each.
use Prim.Native.Char.{Char}
use Prim.Native.String.{◌++◌ as ◌<>◌}
use agent_collab.Base.{
  ℕ, suc, String, Bool, true, false, Option, none, some, List, [], ◌∷◌, ◌++◌, length, if◌then◌else◌,
}
use agent_collab.Base.Text.{is_truthy, decimal}
use agent_collab.Base.Values.{null, str, float, Float, obj, end, field}
use agent_collab.Sessions.{Input}
use agent_collab.Workflows.{distinct_from}
use agent_collab.Referee.Prompts.{directed_role, directed_prompt_for, stage_role, prompt_for}
use agent_collab.Referee.Progress.{
  Progress, fresh, Run, going, halted, cancelled, and_then, finally, Setup, log_event, log_posts,
}
use agent_collab.Events.{Event}
use agent_collab.Referee.Supervision.{Turn, required_turn}

-- _sole_workflow_agent
unfoldable pub sole_workflow_agent : List String → Option String
unfolding distinct_from
sole_workflow_agent members = elim (distinct_from [] members) [ a ∷ [] ↦ some a | _ ↦ none ]

-- `item.target or self._sole_workflow_agent()`
abbrev pub target_or : Option String → Option String → Option String
target_or none sole = sole
target_or (some target) sole = if is_truthy target then some target else sole

-- `queue.get_nowait()` or `queue.get()`, and `queue.task_done()`
abbrev pub take_one : Progress → Progress
take_one p = record p { taken = suc p.taken }

abbrev pub report_done : Progress → Progress
report_done p = record p { finished = suc p.finished }

abbrev pub accept_input : Bool → Progress → Progress
accept_input b p = record p { accepting = b }

abbrev pub drop_appender : Progress → Progress
drop_appender p = record p { appender = false }

-- An input that is got, with the turn that it leads to, if it does.
abbrev pub Directed : Type 0
Directed = Input × Turn

-- What one stage of a run meets: the inputs that are pending before it, and its turn.
pub record StageRun : Type 0 where
  pub pending : List Directed
  pub agent : String
  pub turn : Turn

-- What a run meets: its stages, the inputs that are pending after them, and, while it waits for input,
-- the inputs that come, each with those that are pending after it, until it has waited in vain
-- (`timed_out`) or is cancelled in `queue.get()`. `late` are the messages that are posted after the last
-- of these inputs, and `last` those after the last event of the run. `cut_summary` tells whether it is
-- cancelled before its summary, and `cut_end` after it.
pub record Meeting : Type 0 where
  pub stages : List StageRun
  pub pending : List Directed
  pub inputs : List (Directed × List Directed)
  pub late : List Event
  pub timed_out : Bool
  pub cut_summary : Bool
  pub cut_end : Bool
  pub last : List Event
  pub now : String

module _ (upper : String → String) (is_digit : Char → Bool) (setup : Setup) (task : String)
    (members : List String) where
  -- The turn of a directed message.
  unfoldable pub directed_turn : Progress → Directed → (target : Option String) → Run
  unfolding required_turn directed_prompt_for
  directed_turn p (item, turn) none = going p
  directed_turn p (item, turn) (some target) =
      required_turn upper is_digit setup p ("directed turn: " <> target) target directed_role
        (directed_prompt_for upper task item.event.text) (some item.event.text) (λ n. n) turn

  -- _process_input_item
  unfoldable pub process_input_item : Progress → Directed → Run
  unfolding directed_turn sole_workflow_agent
  process_input_item p d = directed_turn p d (target_or d.0.target (sole_workflow_agent members))

  -- What is posted while the run waits for an input, which is then got.
  abbrev pub get_input : Progress → Directed → Progress
  get_input p d = take_one (log_posts p d.1.before)

  -- One input: it is processed, and reported done in any case.
  unfoldable pub handle_input : Progress → Directed → Run
  unfolding process_input_item
  handle_input p d = finally report_done (process_input_item (get_input p d) d)

  -- _process_pending_inputs, on the inputs that it gets until the queue is empty
  unfoldable pub process_pending_inputs : Progress → List Directed → Run
  unfolding handle_input
  process_pending_inputs p [] = going p
  process_pending_inputs p (d ∷ ds) = and_then (handle_input p d) (λ q. process_pending_inputs q ds)

  -- The body of the loop of _await_interactive_input.
  unfoldable pub await_one : Progress → Directed × List Directed → Run
  unfolding handle_input process_pending_inputs
  await_one p (d, ds) = and_then (handle_input p d) (λ q. process_pending_inputs q ds)

  -- The end of the wait for input: a timeout stops accepting and says so; a cancellation is raised.
  unfoldable pub end_wait :
      (timed_out : Bool) → Progress → (now closing : String) → Float → List Event → Run
  unfolding log_event
  end_wait true p now closing timeout late = going (
      log_event (accept_input false (log_posts p late)) now "referee" "status" closing
        (obj (field "interactive_idle_timeout" (float timeout) end)) none)
  end_wait false p now closing timeout late = halted (log_posts p late) cancelled

  -- _await_interactive_input
  unfoldable pub await_interactive_input :
      (timed_out : Bool)
      → Progress
      → (now closing : String) → Float
      → List Event
      → List (Directed × List Directed)
      → Run
  unfolding await_one end_wait
  await_interactive_input timed_out p now closing timeout late [] =
      end_wait timed_out p now closing timeout late
  await_interactive_input timed_out p now closing timeout late (d ∷ ds) =
      and_then (await_one p d)
        (λ q. await_interactive_input timed_out q now closing timeout late ds)

  -- The turn of one stage.
  unfoldable pub run_stage : Progress → ℕ → StageRun → Run
  unfolding required_turn prompt_for stage_role
  run_stage p turn stage =
      required_turn upper is_digit setup (log_posts p stage.turn.before)
        ("turn " <> (decimal turn <> (": " <> stage.agent))) stage.agent (stage_role turn)
        (prompt_for upper task turn) none (λ n. turn) stage.turn

  abbrev pub if_interactive : Bool → (Progress → Run) → Progress → Run
  if_interactive true run p = run p
  if_interactive false run p = going p

  -- The loop over the stages, the first of which is number `turn`.
  unfoldable pub run_each_stage : (interactive : Bool) → Progress → ℕ → List StageRun → Run
  unfolding process_pending_inputs run_stage
  run_each_stage interactive p turn [] = going p
  run_each_stage interactive p turn (s ∷ ss) =
      and_then (if_interactive interactive (λ q. process_pending_inputs q s.pending) p)
        (λ q. and_then (run_stage q turn s) (λ r. run_each_stage interactive r (suc turn) ss))

  -- _emit_final_summary
  unfoldable pub emit_final_summary : (now logs : String) → ℕ → Progress → Progress
  unfolding log_event
  emit_final_summary now logs turns p =
      log_event p now "referee" "message"
        ("final summary: completed " <> (decimal turns <> (" supervised turn(s). Logs: " <> logs)))
        null none

  abbrev pub announce : String → Progress → Progress
  announce status p = record p { announced = p.announced ++ status ∷ [] }

  -- The end of a run: `p` before its summary, `q` after it.
  unfoldable pub conclude : (cut_summary cut_end : Bool) → (p q : Progress) → Run
  conclude cut_summary cut_end p q =
      if cut_summary then halted p cancelled else if cut_end then halted q cancelled else going q

  -- What an interactive run does after its stages.
  unfoldable pub converse : Progress → (closing logs : String) → Float → Meeting → Run
  unfolding process_pending_inputs await_interactive_input emit_final_summary conclude
  converse p closing logs timeout m = and_then (process_pending_inputs p m.pending) (λ q.
      and_then
        (finally (accept_input false) (
          await_interactive_input m.timed_out (announce "awaiting_input" (accept_input true q))
            m.now closing timeout m.late m.inputs))
        (λ r.
          conclude m.cut_summary m.cut_end r
            (announce "done" (emit_final_summary m.now logs (length m.stages) r))))

  unfoldable pub after_stages :
      (interactive : Bool) → (closing logs : String) → Float → Meeting → Progress → Run
  unfolding converse emit_final_summary conclude
  after_stages true closing logs timeout m p = converse p closing logs timeout m
  after_stages false closing logs timeout m p =
      conclude m.cut_summary m.cut_end p (emit_final_summary m.now logs (length m.stages) p)

  abbrev pub with_appender : Bool → Progress → Progress
  with_appender true p = record p { appender = true }
  with_appender false p = p

  abbrev pub without_appender : Bool → List Event → Progress → Progress
  without_appender true last p = drop_appender (log_posts p last)
  without_appender false last p = p

  -- _run_stages from a fresh referee. `workflow` is the text of its second event.
  unfoldable pub run_stages :
      (interactive : Bool) (workflow closing logs : String) → Float → Meeting → Run
  unfolding run_each_stage after_stages log_event
  run_stages interactive workflow closing logs timeout m =
      let told =
        log_event fresh m.now "human" "message" task (obj (field "task" (str task) end)) none in
      let opened = log_event told m.now "referee" "status" workflow null none in
      finally (without_appender interactive m.last) (
        and_then (run_each_stage interactive (with_appender interactive opened) 1 m.stages)
          (after_stages interactive closing logs timeout m))
