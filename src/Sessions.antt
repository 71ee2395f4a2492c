-- ===== src/Sessions.antt =====
-- agent_collab/daemon.py: one managed session and its entry in the session index.
pub mod Lifecycle
pub mod Recording
pub mod Ending
pub mod Invariant
pub mod Failing
pub mod Steps
pub mod Stopping
pub mod Reads
pub mod Paging
pub mod Answers
pub mod Messages
pub mod Results
pub mod Turns
pub mod Spans
pub mod Agreement
pub mod Recovery
pub mod Restore
pub mod Settings
pub mod Restart
pub mod Traffic
pub mod Addressees
pub mod Posting
mod Delivery
pub mod Settling
pub mod Opening
pub mod Opened
pub mod Examples
mod MessageExamples
mod RestartExamples
mod OpeningExamples
mod RecoveryExamples
use agent_collab.Base.{
  ℕ, String, Bool, true, false, ◌||◌, Option, none, some, List, if◌then◌else◌, ◌==◌,
}
use agent_collab.Base.Dict.{Dict, put}
use agent_collab.Base.Values.{Value}
use agent_collab.Base.Values.{Value}
use agent_collab.Events.{Event}
use agent_collab.Outcomes.Records.{TurnOutcomeRecord, SessionFailure}

-- The status constants of agent_collab/retention.py. A restored record may hold any other text.
pub data Status : Type 0 where
  running awaiting_input done failed stopped interrupted : Status
  other : String → Status

unfoldable pub status_name : Status → String
status_name running = "running"
status_name awaiting_input = "awaiting_input"
status_name done = "done"
status_name failed = "failed"
status_name stopped = "stopped"
status_name interrupted = "interrupted"
status_name (other s) = s

-- TERMINAL_STATUSES
abbrev pub is_terminal : Status → Bool
is_terminal done = true
is_terminal failed = true
is_terminal stopped = true
is_terminal interrupted = true
is_terminal _ = false

-- LIVE_WAIT_STATUSES
abbrev pub is_live : Status → Bool
is_live running = true
is_live awaiting_input = true
is_live _ = false

-- The captured provider session of one agent.
pub record AgentSession : Type 0 where
  pub backend : String
  pub provider_session_id : String
  pub provider_session_kind : Option String

-- SessionState, without the start options that no operation reads after the start. `agents` are the ids
-- and types of the `agents` of its settings, as _session_agent_refs reads them.
pub record SessionState : Type 0 where
  pub session_id : String
  pub status : Status
  pub jsonl_path : String
  pub markdown_path : String
  pub updated_at : String
  pub interactive : Bool
  pub ended_at : Option String
  pub error : Option String
  pub failure : Option SessionFailure
  pub turn_outcomes : Option (List TurnOutcomeRecord)
  pub agent_sessions : Option (Dict AgentSession)
  pub settings : Value
  pub agents : Dict String

-- What a live session keeps of its StartSessionRequest: resolved backends by agent, and the type of
-- each agent of the config snapshot.
pub record Request : Type 0 where
  pub interactive : Bool
  pub resolved_backends : Option (Dict String)
  pub agent_types : Option (Dict String)

-- RefereeInput
pub record Input : Type 0 where
  pub event : Event
  pub target : Option String

-- The asyncio task of a session's run.
pub data Task : Type 0 where
  no_task pending finished : Task

-- One entry of the answer ledger.
pub record Answer : Type 0 where
  pub text : String
  pub event_id : ℕ
  pub timestamp : String

-- _ManagedSession. `unfinished` counts the inputs put and not yet reported done.
pub record Managed : Type 0 where
  pub request : Option Request
  pub state : SessionState
  pub events : List Event
  pub queue : List Input
  pub unfinished : ℕ
  pub appender : Bool
  pub turn_active : Bool
  pub input_accepting : Bool
  pub answer_ledger : Dict Answer
  pub task : Task
  pub stop_requested : Bool
  pub notify_pending : Bool

-- A session with the index that the daemon keeps of all sessions; without an index, none.
pub record World : Type 0 where
  pub managed : Managed
  pub open managed use *
  pub index : Option (Dict SessionState)

abbrev pub with_state : World → SessionState → World
with_state w s = record w { managed = record w.managed { state = s } }

-- SessionManager._persist, through SessionIndex.upsert. `disk` tells whether the write succeeds; an
-- OSError is logged and dropped.
unfoldable pub persist : (disk : Bool) → World → World
persist disk w = elim w.index [
  | none ↦ w
  | some records ↦
      if disk then record w { index = some (put records w.state.session_id w.state) } else w
]

-- _schedule_notify, on a running event loop
unfoldable pub schedule_notify : World → World
schedule_notify w = record w { managed = record w.managed { notify_pending = true } }

-- _notify
unfoldable pub notify : World → World
notify w = record w { managed = record w.managed { notify_pending = false } }
