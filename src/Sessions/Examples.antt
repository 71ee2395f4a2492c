-- ===== src/Sessions/Examples.antt =====
-- The theorems on sessions, at one session with two agents.
use agent_collab.Base.{
  ℕ, String, ◌≡◌, refl, ◌≤◌, ◌<◌, ◌++◌, true, false, none, some, [], ◌∷◌, arith, length, List, ok,
}
use agent_collab.Base.Text.{is_ascii_digit}
use agent_collab.Base.Values.{null, int, pos, str, obj, end, field}
use agent_collab.Events.{Event}
use agent_collab.Outcomes.Codes.{completed}
use agent_collab.Outcomes.Records.{TurnOutcomeRecord}
use agent_collab.Sessions.{
  Status, running, awaiting_input, done, stopped, is_terminal, is_live, SessionState, Managed,
  World, Answer, Task, pending, no_task,
}
use agent_collab.Sessions.Lifecycle.{plain, set_status}
use agent_collab.Sessions.Recording.{record_event, record_turn_outcome, note_outcome}
use agent_collab.Sessions.Ending.{requested, stop_session}
use agent_collab.Sessions.Reads.{OutcomeView}
use agent_collab.Sessions.Invariant.{IsValid}
use agent_collab.Sessions.Steps.{
  Reach, here, next, change_status, event, outcome, posted, taken, input_done, Reach-IsValid,
}
use agent_collab.Sessions.{schedule_notify}
use agent_collab.Sessions.Messages.{put_input, take_input, task_done, post_event}
use agent_collab.Sessions.Stopping.{SameEnd, Reach-SameEnd, stop_session_terminal}
use agent_collab.Sessions.Paging.{page, page-append, page_advances}

abbrev pub session : World
session = record {
  managed = record {
    request = some (record { interactive = true; resolved_backends = none; agent_types = none });
    state = record {
      session_id = "s1";
      status = running;
      jsonl_path = "s1/events.jsonl";
      markdown_path = "s1/transcript.md";
      updated_at = "12:00";
      interactive = true;
      ended_at = none;
      error = none;
      failure = none;
      turn_outcomes = none;
      agent_sessions = none;
      settings = obj (field "sandbox" (str "none") end);
      agents = ("a", "claude") ∷ ("b", "codex") ∷ [];
    };
    events = [];
    queue = [];
    unfinished = 0;
    appender = true;
    turn_active = true;
    input_accepting = true;
    answer_ledger = [];
    task = pending;
    stop_requested = false;
    notify_pending = false;
  };
  index = some [];
}

abbrev pub message : Event
message = record {
  timestamp = "12:01";
  source = "claude";
  type = "message";
  text = "hello";
  raw = null;
  agent_id = some "a";
  provider_session = none;
}

abbrev first_turn : TurnOutcomeRecord
first_turn = record {
  turn_id = "turn-1";
  stage_index = int (pos 1);
  agent_id = "a";
  backend = "mock";
  outcome = completed;
  code = none;
  message = none;
  provider_stop_reason = none;
  process_exit_code = none;
  retry_after_seconds = none;
}

abbrev spoken : World
spoken = record_event true "12:01" session message

abbrev noted : World
noted = note_outcome true "12:02" spoken first_turn message

noted_first : record_turn_outcome true "12:02" spoken first_turn message ≡ ok noted
unfolding record_turn_outcome record_event agent_collab.Sessions.schedule_notify
    agent_collab.Sessions.Recording.capture_provider_session
    agent_collab.Sessions.Recording.keep_session agent_collab.Sessions.Recording.accepted_session
noted_first = refl

-- A message is posted, taken and reported done.
abbrev asked : World
asked = post_event false "12:02" (λ x. x) noted message (some "a")

abbrev reading : World
reading = record asked { managed = record asked.managed { queue = [] } }

asked_taken : take_input asked ≡ some (record { event = message; target = some "a" }, reading)
unfolding take_input post_event put_input agent_collab.Sessions.persist record_event schedule_notify
    agent_collab.Sessions.Recording.capture_provider_session
    agent_collab.Sessions.Recording.keep_session agent_collab.Sessions.Recording.accepted_session
    note_outcome
asked_taken = refl

abbrev heard : World
heard = schedule_notify (record reading { managed = record reading.managed { unfinished = 0 } })

heard_done : task_done reading ≡ ok heard
unfolding task_done post_event put_input agent_collab.Sessions.persist record_event note_outcome
    agent_collab.Sessions.Messages.finish_input agent_collab.Sessions.schedule_notify
    agent_collab.Sessions.Recording.append_stored
    agent_collab.Sessions.Recording.capture_provider_session
    agent_collab.Sessions.Recording.keep_session agent_collab.Sessions.Recording.accepted_session
heard_done = refl

abbrev ended : World
ended = (set_status true "12:03" heard done plain).0

session_steps : Reach is_ascii_digit session ended
session_steps =
    next
      (next
        (next
          (next
            (next (next here (event true "12:01" session message))
              (outcome true "12:02" first_turn message noted_first))
            (posted false "12:02" noted message (some "a")))
          (taken (record { event = message; target = some "a" }) asked_taken))
        (input_done heard_done))
      (change_status true "12:03" heard done plain)

session-IsValid : IsValid session
session-IsValid = record { known = refl; ended = refl; unique = tt }

Reach-IsValid_example : IsValid ended
Reach-IsValid_example = Reach-IsValid is_ascii_digit session_steps session-IsValid

-- The same session, done.
abbrev over : World
over = record session {
  managed = record session.managed {
    state = record session.state { status = done; ended_at = some "12:03" };
  };
}

abbrev stopped_late : World
stopped_late = (set_status true "12:04" (record_event true "12:04" over message) stopped plain).0

late_steps : Reach is_ascii_digit over stopped_late
late_steps =
    next (next here (event true "12:04" over message))
      (change_status true "12:04" (record_event true "12:04" over message) stopped plain)

Reach-SameEnd_example : SameEnd over stopped_late
Reach-SameEnd_example = Reach-SameEnd is_ascii_digit late_steps refl

abbrev settle : World → World
settle w = record_event true "12:05" w message

settle_steps : Reach is_ascii_digit (requested session) (settle (requested session))
settle_steps = next here (event true "12:05" (requested session) message)

stop_session_terminal_example :
    IsValid (stop_session true "12:06" settle session)
    × (is_terminal (stop_session true "12:06" settle session).state.status ≡ true)
stop_session_terminal_example =
    stop_session_terminal is_ascii_digit true "12:06" settle session session-IsValid settle_steps

requested-IsValid : IsValid (requested session)
requested-IsValid = record { known = refl; ended = refl; unique = tt }

settled_live : is_live (settle (requested session)).state.status ≡ true
unfolding record_event agent_collab.Sessions.schedule_notify
    agent_collab.Sessions.Recording.capture_provider_session
    agent_collab.Sessions.Recording.keep_session agent_collab.Sessions.Recording.accepted_session
settled_live = refl

abbrev log : List Event
log = message ∷ (record message { type = "status" }) ∷ message ∷ []

abbrev shown : ℕ → Event → ℕ × String
shown i e = (i, e.text)

abbrev seen : OutcomeView
seen = record {
  status = running;
  terminal = false;
  error = none;
  failure = none;
  turn_outcomes = none;
}

page-append_example :
    (page shown (some ("message" ∷ [])) log seen 1 (some 1)).events
      ++ (page shown
          (some ("message" ∷ []))
          log
          seen
          (page shown (some ("message" ∷ [])) log seen 1 (some 1)).cursor
          none).events
    ≡ (page shown (some ("message" ∷ [])) log seen 1 none).events
page-append_example = page-append shown (some ("message" ∷ [])) log seen 1 1 (omega arith)

page_advances_example :
    (1 < (page shown (some ("message" ∷ [])) log seen 1 (some 1)).cursor)
    × ((page shown (some ("message" ∷ [])) log seen 1 (some 1)).cursor ≤ length log)
page_advances_example =
    page_advances shown (some ("message" ∷ [])) log seen 1 1 (omega arith) (omega arith)
