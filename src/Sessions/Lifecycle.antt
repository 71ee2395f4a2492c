-- ===== src/Sessions/Lifecycle.antt =====
-- The status machine of a session: `_transition_state` and `_set_status` of agent_collab/daemon.py.
use agent_collab.Base.{String, Bool, true, false, not, ◌&&◌, none, some, if◌then◌else◌, ◌==◌}
use agent_collab.Outcomes.Codes.{is_safe_error}
use agent_collab.Outcomes.Records.{SessionFailure}
use agent_collab.Sessions.{
  Status, is_terminal, is_live, status_name, SessionState, World, with_state, persist,
}

unfoldable pub same_status : Status → Status → Bool
unfolding status_name
same_status a b = status_name a == status_name b

-- _transition_state: the new state, and whether the transition holds
unfoldable pub transition_state : SessionState → Status → SessionState × Bool
transition_state s status =
    if is_terminal s.status
    then (s, same_status s.status status)
    else if not (is_live s.status)
    then (s, false)
    else if not (is_live status) && not (is_terminal status)
    then (s, false)
    else (record s { status = status }, true)

-- What a change of status reports: nothing, a text that is kept only if it is canonical, or a
-- failure with its message.
pub data Report : Type 0 where
  plain : Report
  error_text : String → Report
  failure : SessionFailure → Report

unfoldable pub apply_report : Report → SessionState → SessionState
apply_report plain s = s
apply_report (error_text e) s = record s { error = if is_safe_error e then some e else none }
apply_report (failure f) s = record s { failure = some f; error = f.message }

-- _set_status at the time `now`
unfoldable pub set_status : (disk : Bool) (now : String) → World → Status → Report → World × Bool
set_status disk now w status report =
    if is_terminal w.state.status
    then (w, same_status w.state.status status)
    else let (moved, changed) = transition_state w.state status in
      if changed
      then (let stamped = record moved {
        updated_at = now;
        ended_at = if is_terminal status then some now else moved.ended_at;
      } in
          (persist disk (with_state w (apply_report report stamped)), true))
      else (w, false)
