-- ===== src/Sessions/Opening.antt =====
-- Starting a session: `start_session` and `_validate_new_session_id` of agent_collab/daemon.py. What
-- `_prepare_session_start` gives is an argument, as are the ids of the sessions that the manager has, a
-- random id and the joining of paths. What the session is told is the state itself.
use Prim.Native.String.{◌++◌ as ◌<>◌}
use agent_collab.Base.{
  String, Bool, false, not, Option, none, some, List, [], if◌then◌else◌, Result, ok, ◌>>=◌, ◌>>◌,
  require, session_request_error,
}
use agent_collab.Base.Text.{member, is_truthy}
use agent_collab.Base.Values.{Value}
use agent_collab.Base.Dict.{Dict}
use agent_collab.Sessions.{running, SessionState, no_task, pending, Managed, World, persist}
use agent_collab.Retention.Transcripts.{is_valid_session_id}

-- What of a _PreparedSessionStart the session keeps, and the agents of its settings.
pub record Prepared : Type 0 where
  pub log_dir : String
  pub agent_backends : Dict String
  pub agent_types : Dict String
  pub settings : Value
  pub agents : Dict String

-- What of a StartSessionRequest is read here.
pub record StartSession : Type 0 where
  pub session_id : Option String
  pub interactive : Bool

-- `request.session_id or self._new_session_id()`
unfoldable pub id_for : (new_id : String) → Option String → String
id_for new_id none = new_id
id_for new_id (some id) = if is_truthy id then id else new_id

-- _validate_new_session_id
unfoldable pub validate_new_session_id : (known : List String) → String → Result (Unit {0})
validate_new_session_id known id = do
  require (is_valid_session_id id) session_request_error
  require (not (member id known)) session_request_error

module _ (join : String → String → String) where
  unfoldable pub new_state : (now id : String) → Prepared → StartSession → SessionState
  new_state now id prepared request = record {
    session_id = id;
    status = running;
    jsonl_path = join prepared.log_dir (id <> ".jsonl");
    markdown_path = join prepared.log_dir (id <> ".md");
    updated_at = now;
    interactive = request.interactive;
    ended_at = none;
    error = none;
    failure = none;
    turn_outcomes = some [];
    agent_sessions = none;
    settings = prepared.settings;
    agents = prepared.agents;
  }

  unfoldable pub new_managed : (now id : String) → Prepared → StartSession → Managed
  unfolding new_state
  new_managed now id prepared request = record {
    request = some record {
      interactive = request.interactive;
      resolved_backends = some prepared.agent_backends;
      agent_types = some prepared.agent_types;
    };
    state = new_state now id prepared request;
    events = [];
    queue = [];
    unfinished = 0;
    appender = false;
    turn_active = false;
    input_accepting = false;
    answer_ledger = [];
    task = no_task;
    stop_requested = false;
    notify_pending = false;
  }

  -- managed.task = asyncio.create_task(...)
  abbrev pub create_task : World → World
  create_task w = record w { managed = record w.managed { task = pending } }

  unfoldable pub start_session :
      (disk : Bool) (now new_id : String)
      → (known : List String) → (index : Option (Dict SessionState)) → Result Prepared
      → StartSession
      → Result World
  unfolding id_for validate_new_session_id new_managed persist
  start_session disk now new_id known index preparation request = do
    prepared ← preparation
    validate_new_session_id known (id_for new_id request.session_id)
    ok (
        create_task (
          persist disk record {
            managed = new_managed now (id_for new_id request.session_id) prepared request;
            index = index;
          }))
