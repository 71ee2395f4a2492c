-- ===== src/Sessions/Ending.antt =====
-- How a session's run ends: the tail of `_run_session`, and `stop_session`, of
-- agent_collab/daemon.py.
use Prim.Native.Char.{Char}
use agent_collab.Base.{ℕ, String, Bool, true, not, ◌&&◌, none, [], if◌then◌else◌, Result, ok, err}
use agent_collab.Base.Values.{null, str, int, pos, obj, end, field}
use agent_collab.Events.{Event, create}
use agent_collab.Outcomes.Records.{TurnOutcomeRecord, SessionFailure, from_record, make_failure}
use agent_collab.Sessions.{
  done, failed, stopped, is_terminal, is_live, Task, no_task, pending, finished, World, with_state,
  persist,
}
use agent_collab.Sessions.Lifecycle.{plain, failure, set_status}
use agent_collab.Sessions.Recording.{record_event}

-- What `await referee.run(...)` gives: the paths of the logs, or an exception.
pub data RunEnd : Type 0 where
  returned : (jsonl_path markdown_path : String) → RunEnd
  cancelled : RunEnd
  required_turn_failed : TurnOutcomeRecord → RunEnd
  parallel_stage_failed : ℕ → RunEnd
  crashed : (class_name : String) → RunEnd

-- SessionFailure(code=code)
abbrev pub bare_failure : (Char → Bool) → String → Result SessionFailure
bare_failure is_digit code =
    make_failure is_digit (str code) null null null null null null null null null

-- The failure of ParallelStageFailed(stage_index)
abbrev pub stage_failure : (Char → Bool) → ℕ → Result SessionFailure
stage_failure is_digit stage =
    make_failure is_digit (str "parallel_stage_no_accepted_member") null (int (pos stage)) null null
      null null null null null

-- The error event that an exception of another class leaves in the log.
unfoldable pub crash_event : (now class_name : String) → Event
unfolding create
crash_event now class_name =
    (create [] now "error" "error" "Unexpected session failure"
      (obj (field "exception" (str class_name) end)) none).0

-- `state.jsonl_path, state.markdown_path = ...; self._persist(state)`
unfoldable pub save_paths : (disk : Bool) → World → (jsonl_path markdown_path : String) → World
save_paths disk w jsonl markdown =
    persist disk (with_state w (record w.state { jsonl_path = jsonl; markdown_path = markdown }))

module _ (is_digit : Char → Bool) (disk : Bool) (now : String) where
  -- `await self._set_status(managed, FAILED, failure=...)`. A failure that cannot be made is the
  -- exception that its constructor raises, and nothing is published.
  unfoldable pub publish_failure : World → Result SessionFailure → Result World
  publish_failure w (ok f) = ok (set_status disk now w failed (failure f)).0
  publish_failure w (err e) = err e

  -- The end of _run_session, from the value or the exception of the referee's run.
  unfoldable pub finish_run : World → RunEnd → Result World
  unfolding publish_failure
  finish_run w (returned jsonl markdown) =
      let saved = save_paths disk w jsonl markdown in
      if is_live saved.state.status && not saved.stop_requested
      then ok (set_status disk now saved done plain).0
      else ok saved
  finish_run w cancelled =
      if w.stop_requested
      then ok w
      else publish_failure w (bare_failure is_digit "referee_cancelled_unexpected")
  finish_run w (required_turn_failed r) = publish_failure w (from_record is_digit r)
  finish_run w (parallel_stage_failed stage) = publish_failure w (stage_failure is_digit stage)
  finish_run w (crashed class_name) =
      publish_failure (record_event disk now w (crash_event now class_name))
        (bare_failure is_digit "provider_transport_failed")

-- The world in which a stop is registered.
abbrev pub requested : World → World
requested w = record w { managed = record w.managed { stop_requested = true } }

-- stop_session on a session that is not terminal. `settle` is what the cancelled run does before
-- `await task` returns.
unfoldable pub stop_live :
    (disk : Bool) (now : String) (settle : World → World) → Task → World → World
stop_live disk now settle pending w = (set_status disk now (settle (requested w)) stopped plain).0
stop_live disk now settle no_task w = (set_status disk now w stopped plain).0
stop_live disk now settle finished w = (set_status disk now w stopped plain).0

-- stop_session
unfoldable pub stop_session : (disk : Bool) (now : String) (settle : World → World) → World → World
unfolding stop_live
stop_session disk now settle w =
    if is_terminal w.state.status then w else stop_live disk now settle w.task w
