-- ===== src/Sessions/Results.antt =====
-- The result of a session: `_result_settled` and `_build_result` of agent_collab/daemon.py. How one
-- event of the tail is shown is the argument `view`.
use agent_collab.Base.{
  ℕ, ◌-◌, String, Bool, true, false, not, ◌&&◌, ◌||◌, none, some, List, [], length, drop,
  if◌then◌else◌, ◌=?◌,
}
use agent_collab.Events.{Event}
use agent_collab.Sessions.{Status, done, is_terminal, World}
use agent_collab.Sessions.Answers.{AgentAnswer, live_answers, restored_answers}
use agent_collab.Sessions.Messages.{is_awaiting}
use agent_collab.Sessions.Reads.{OutcomeView, outcome_view, project_from}

-- RESULT_TAIL_EVENTS
abbrev pub result_tail_events : ℕ
result_tail_events = 20

-- _result_settled
unfoldable pub result_settled : World → Bool
result_settled w =
    is_terminal w.state.status
    || (is_awaiting w.state.status && w.input_accepting && (w.unfinished =? 0))

-- _session_answers
unfoldable pub session_answers : World → List AgentAnswer
unfolding live_answers restored_answers
session_answers w = elim w.request [
  | none ↦ restored_answers w.events
  | some r ↦ live_answers w.answer_ledger
]

abbrev pub is_done : Status → Bool
is_done done = true
is_done _ = false

-- SessionResult
pub record SessionResult (A : Type 0) : Type 0 where
  pub session_id : String
  pub settled : Bool
  pub cursor : ℕ
  pub view : OutcomeView
  pub answers : List AgentAnswer
  pub markdown_path : String
  pub jsonl_path : String
  pub events_tail : List A

module _ {A : Type 0} (view : ℕ → Event → A) where
  unfoldable pub tail_of : World → List A
  unfolding project_from
  tail_of w =
      let start = length w.events - result_tail_events in
      project_from view none start (drop start w.events)

  -- _build_result
  unfoldable pub build_result : World → SessionResult A
  unfolding result_settled session_answers tail_of outcome_view
  build_result w =
      let settled = result_settled w in
      record {
        session_id = w.state.session_id;
        settled = settled;
        cursor = length w.events;
        view = outcome_view w.state;
        answers = if settled then session_answers w else [];
        markdown_path = w.state.markdown_path;
        jsonl_path = w.state.jsonl_path;
        events_tail =
            if settled && is_terminal w.state.status && not (is_done w.state.status)
            then tail_of w
            else [];
      }
