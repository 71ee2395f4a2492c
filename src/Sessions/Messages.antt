-- ===== src/Sessions/Messages.antt =====
-- Follow-up messages: `post_message` of agent_collab/daemon.py, its checks and the input queue.
use agent_collab.Base.{
  ℕ, zero, suc, String, Bool, true, false, not, ◌&&◌, ◌||◌, Option, none, some, List, [], ◌∷◌, ◌++◌,
  map, select, length, if◌then◌else◌, ◌==◌, Result, ok, err, ◌>>=◌, ◌>>◌, require,
  session_request_error, value_error,
}
use agent_collab.Base.Text.{is_truthy, strip}
use agent_collab.Base.Dict.{Dict}
use agent_collab.Base.Values.{Value, null, str, bool, obj, end, field}
use agent_collab.Outcomes.Fields.{of_text}
use agent_collab.Events.{Event, create}
use agent_collab.Sessions.{
  Status, awaiting_input, is_live, Request, Input, pending, World, with_state, persist,
  schedule_notify,
}
use agent_collab.Sessions.Reads.{outcome_view, EventBatch}
use agent_collab.Sessions.Recording.{record_event}

-- _TrackedInputQueue.put_nowait
unfoldable pub put_input : World → Input → World
put_input w item = record w {
  managed = record w.managed { queue = w.queue ++ item ∷ []; unfinished = suc w.unfinished };
}

unfoldable pub pop_input : World → List Input → Option (Input × World)
pop_input w [] = none
pop_input w (item ∷ rest) = some (item, record w { managed = record w.managed { queue = rest } })

-- `get_nowait`: the oldest input, which stays unfinished
unfoldable pub take_input : World → Option (Input × World)
unfolding pop_input
take_input w = pop_input w w.queue

unfoldable pub finish_input : World → (unfinished : ℕ) → Result World
finish_input w zero = err value_error
finish_input w (suc n) =
    ok (schedule_notify (record w { managed = record w.managed { unfinished = n } }))

-- _TrackedInputQueue.task_done, with its hook. One call too many is a ValueError of asyncio.Queue.
unfoldable pub task_done : World → Result World
unfolding finish_input
task_done w = finish_input w w.unfinished

-- _normalize_message_text
unfoldable pub normalize_message_text : Value → Result String
unfolding strip
normalize_message_text (str s) =
    if is_truthy (strip s) then ok (strip s) else err session_request_error
normalize_message_text v = err session_request_error

-- _normalize_message_source
unfoldable pub normalize_message_source : Value → Result String
normalize_message_source null = ok "referee"
normalize_message_source (str s) =
    if (s == "human") || (s == "referee") then ok s else err session_request_error
normalize_message_source v = err session_request_error

abbrev pub is_awaiting : Status → Bool
is_awaiting awaiting_input = true
is_awaiting _ = false

abbrev pub is_interactive : Option Request → Bool
is_interactive none = false
is_interactive (some r) = r.interactive

-- A session that takes messages: it has a live runner, it is interactive, and it is not parked with
-- its input closed.
unfoldable pub is_open : World → Bool
is_open w =
    is_live w.state.status
    && w.state.interactive
    && is_interactive w.request
    && not (is_awaiting w.state.status && not w.input_accepting)

-- _validate_message_session: four refusals of one class
unfoldable pub validate_message_session : World → Result (Unit {0})
unfolding is_open
validate_message_session w = require (is_open w) session_request_error

-- _require_event_appender. `wait` is what happens to the session while it waits for an appender.
unfoldable pub require_event_appender : (wait : World → World) → World → Result World
require_event_appender wait w = if w.appender then ok w else elim w.task [
  | pending ↦ if (wait w).appender then ok (wait w) else err session_request_error
  | _ ↦ err session_request_error
]

abbrev pub ids : Dict String → List String
ids agents = map (λ e. e.0) agents

-- The end of _resolve_message_target: the agents of the type, if none has the id.
unfoldable pub only_match :
    (selector : String) → List String → Result (Option String × Option String)
only_match selector (a ∷ []) = ok (some selector, some a)
only_match selector _ = err session_request_error

unfoldable pub match_id :
    (selector : String) (by_id by_type : List String) → Result (Option String × Option String)
unfolding only_match
match_id selector (a ∷ more) by_type = ok (some selector, some a)
match_id selector [] by_type = only_match selector by_type

-- The event of a message.
unfoldable pub message_event :
    (now source text : String) (target resolved : Option String) (queued : Bool) → Event
unfolding create
message_event now source text target resolved queued =
    (create [] now source "message" text
      (obj (
        field "source" (str source) (
          field "target" (of_text target)
            (field "resolved_target" (of_text resolved) (field "queued" (bool queued) end)))))
      none).0

-- What post_message does behind its checks: the appender records the event, after what happens to
-- the session `during` its wait for the log, and the input is put.
unfoldable pub post_event :
    (disk : Bool) (now : String) (during : World → World) → World → Event → Option String → World
unfolding put_input
post_event disk now during w e resolved =
    let logged = record_event disk now (during w) e in
    put_input (persist disk (with_state logged (record logged.state { updated_at = e.timestamp })))
      (record { event = e; target = resolved })

-- The part of post_message behind its checks, and its reply.
unfoldable pub accept_message :
    (disk : Bool) (now : String) (during : World → World)
    → World
    → (source text : String) → Option String × Option String
    → World × EventBatch Event
unfolding message_event post_event
accept_message disk now during w source text named =
    let e = message_event now source text named.0 named.1 w.turn_active in
    let posted = post_event disk now during w e named.1 in
    (
      posted,
      record {
        cursor = length (record_event disk now (during w) e).events;
        events = e ∷ [];
        view = outcome_view posted.state;
      },
    )

-- `str.lower`
module _ (lower : String → String) where
  -- _resolve_message_target: the text that was given and the agent that it names
  unfoldable pub resolve_message_target :
      Dict String → Value → Result (Option String × Option String)
  unfolding match_id strip
  resolve_message_target agents null = ok (none, elim (ids agents) [ a ∷ [] ↦ some a | _ ↦ none ])
  resolve_message_target agents (str target) =
      let selector = strip target in
      let needle = lower selector in
      if is_truthy selector
      then match_id selector (ids (select (λ e. lower e.0 == needle) agents))
          (ids (select (λ e. (lower e.1 == needle) && is_truthy e.1) agents))
      else err session_request_error
  resolve_message_target agents v = err session_request_error

  -- post_message
  unfoldable pub post_message :
      (disk : Bool) (now : String) (wait during : World → World)
      → World
      → (text source target : Value) → Result (World × EventBatch Event)
  unfolding normalize_message_text normalize_message_source resolve_message_target
  post_message disk now wait during w text source target = do
    message_text ← normalize_message_text text
    message_source ← normalize_message_source source
    validate_message_session w
    named ← resolve_message_target w.state.agents target
    ready ← require_event_appender wait w
    validate_message_session ready
    ok (accept_message disk now during ready message_source message_text named)
