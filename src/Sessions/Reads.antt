-- ===== src/Sessions/Reads.antt =====
-- Reading the events of a session: `read_events` of agent_collab/daemon.py. How one event is shown,
-- in full or as a digest line, is the reader's choice of `view`, and an argument here.
use agent_collab.Base.{
  ℕ, zero, suc, ◌+◌, ◌-◌, String, Bool, true, Option, none, some, List, [], ◌∷◌, length, take, drop,
  min, all, if◌then◌else◌, Result, ok, err, ◌>>=◌, session_request_error,
}
use agent_collab.Base.Text.{member}
use agent_collab.Base.Values.{ℤ, pos, negsuc}
use agent_collab.Events.{Event, is_type}
use agent_collab.Outcomes.Records.{TurnOutcomeRecord, SessionFailure}
use agent_collab.Sessions.{Status, is_terminal, SessionState, World}

-- _normalize_cursor
unfoldable pub normalize_cursor : ℤ → Result ℕ
normalize_cursor (pos n) = ok n
normalize_cursor (negsuc n) = err session_request_error

-- _normalize_limit, of an int
unfoldable pub normalize_limit : Option ℤ → Result (Option ℕ)
normalize_limit none = ok none
normalize_limit (some (pos zero)) = err session_request_error
normalize_limit (some (pos (suc n))) = ok (some (suc n))
normalize_limit (some (negsuc n)) = err session_request_error

-- _normalize_types, of a sequence of texts
unfoldable pub normalize_types : Option (List String) → Result (Option (List String))
normalize_types none = ok none
normalize_types (some []) = err session_request_error
normalize_types (some (t ∷ ts)) =
    if all is_type (t ∷ ts) then ok (some (t ∷ ts)) else err session_request_error

-- _outcome_view
pub record OutcomeView : Type 0 where
  pub status : Status
  pub terminal : Bool
  pub error : Option String
  pub failure : Option SessionFailure
  pub turn_outcomes : Option (List TurnOutcomeRecord)

unfoldable pub outcome_view : SessionState → OutcomeView
outcome_view s = record {
  status = s.status;
  terminal = is_terminal s.status;
  error = s.error;
  failure = s.failure;
  turn_outcomes = s.turn_outcomes;
}

-- EventBatch
pub record EventBatch (A : Type 0) : Type 0 where
  pub cursor : ℕ
  pub events : List A
  pub view : OutcomeView

-- Whether the type filter keeps an event.
unfoldable pub is_wanted : Option (List String) → Event → Bool
is_wanted none e = true
is_wanted (some types) e = member e.type types

-- `len(events) if limit is None else min(len(events), cursor + limit)`
unfoldable pub scan_end : ℕ → ℕ → Option ℕ → ℕ
scan_end size cursor none = size
scan_end size cursor (some limit) = min size (cursor + limit)

module _ {A : Type 0} (view : ℕ → Event → A) where
  -- The loop over the scanned events, whose ids count up from the cursor.
  unfoldable pub project_from : Option (List String) → ℕ → List Event → List A
  unfolding is_wanted
  project_from types i [] = []
  project_from types i (e ∷ es) =
      let rest = project_from types (i + 1) es in
      if is_wanted types e then view i e ∷ rest else rest

  -- _event_batch_from_snapshot: the events, and the cursor that moves over all that was scanned
  unfoldable pub batch_from_snapshot :
      List Event → ℕ → Option ℕ → Option (List String) → OutcomeView → EventBatch A
  unfolding project_from scan_end
  batch_from_snapshot events cursor limit types seen =
      let end = scan_end (length events) cursor limit in
      record {
        cursor = end;
        events = project_from types cursor (take (end - cursor) (drop cursor events));
        view = seen;
      }

  -- read_events on the events in memory
  unfoldable pub read_events : World → ℤ → Option ℤ → Option (List String) → Result (EventBatch A)
  unfolding batch_from_snapshot normalize_cursor normalize_limit normalize_types outcome_view
  read_events w cursor limit types = do
    start ← normalize_cursor cursor
    limit' ← normalize_limit limit
    types' ← normalize_types types
    ok (
        batch_from_snapshot w.events (min start (length w.events)) limit' types'
          (outcome_view w.state))
