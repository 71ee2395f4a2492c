-- ===== src/Sessions/MessageExamples.antt =====
-- The theorems on messages and results, at the session of the examples.
use agent_collab.Base.{ℕ, String, ◌≡◌, refl, true, Option, some, [], ok}
use agent_collab.Base.Values.{str}
use agent_collab.Events.{Event}
use agent_collab.Sessions.{Status, awaiting_input, Input, World}
use agent_collab.Sessions.Reads.{EventBatch}
use agent_collab.Sessions.Messages.{
  put_input, take_input, task_done, accept_message, resolve_message_target, post_message,
}
use agent_collab.Sessions.Results.{result_settled}
use agent_collab.Sessions.Posting.{WasPosted, post_message-WasPosted}
use agent_collab.Sessions.Settling.{
  put, taken, finished, elsewhere, InputReach, here, next, result_settled_idle,
}
use agent_collab.Sessions.Examples.{session, message}

abbrev named : Option String × Option String
named = (some "codex", some "b")

abbrev same_text : String → String
same_text s = s

abbrev unchanged : World → World
unchanged w = w

codex_named : resolve_message_target same_text session.state.agents (str " codex ") ≡ ok named
unfolding resolve_message_target
codex_named = refl

abbrev posted : World × EventBatch Event
posted = accept_message true "12:10" unchanged session "human" "go on" named

was_accepted :
    post_message same_text true "12:10" unchanged unchanged session
      (str "go on ")
      (str "human")
      (str " codex ")
    ≡ ok posted
unfolding post_message agent_collab.Sessions.Messages.validate_message_session
    agent_collab.Sessions.Messages.require_event_appender
was_accepted = refl

post_message-WasPosted_example :
    (ready : World) × WasPosted same_text "12:10"
      (str "go on ")
      (str "human")
      (str " codex ")
      unchanged
      unchanged
      session
      posted.0
      posted.1
      ready
post_message-WasPosted_example =
    post_message-WasPosted same_text true "12:10" unchanged unchanged session (str "go on ")
      (str "human") (str " codex ") posted.0 posted.1 was_accepted

abbrev input : Input
input = record { event = message; target = some "a" }

abbrev queued : World
queued = put_input session input

abbrev reading : World
reading = record session { managed = record session.managed { unfinished = 1 } }

input_taken : take_input queued ≡ some (input, reading)
unfolding take_input put_input
input_taken = refl

taken_steps : InputReach (session, 0) (reading, 1)
taken_steps = next (next here (put session 0 input)) (taken 0 input input_taken)

-- The session is parked for input again.
abbrev parked : World
parked = record session {
  managed = record session.managed {
    state = record session.state { status = awaiting_input };
    notify_pending = true;
  };
}

abbrev answered : World
answered = record session { managed = record session.managed { notify_pending = true } }

input_done : task_done reading ≡ ok answered
unfolding task_done agent_collab.Sessions.schedule_notify
input_done = refl

parked_steps : InputReach (session, 0) (parked, 0)
parked_steps =
    next (next taken_steps (finished 0 input_done))
      (elsewhere {w = answered} {v = parked} 0 refl refl)

parked_settled : result_settled parked ≡ true
unfolding result_settled
parked_settled = refl

result_settled_idle_example : (parked.queue ≡ []) × (◌≡◌ {A = ℕ} 0 0)
result_settled_idle_example = result_settled_idle parked_steps refl refl refl parked_settled
