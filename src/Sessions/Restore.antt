-- ===== src/Sessions/Restore.antt =====
-- Sessions after a restart: `_state_from_record` and `_restore_from_index` of agent_collab/daemon.py.
-- A stored record is what `to_dict` wrote, but its failure, its outcomes and its settings may be any
-- values.
use Prim.Native.Char.{Char}
use agent_collab.Base.{
  String, Bool, true, false, ◌&&◌, Option, none, some, List, [], ◌∷◌, if◌then◌else◌, Error,
  value_error, type_error, attribute_error, Result, ok, err, ◌>>=◌,
}
use agent_collab.Base.Text.{is_truthy}
use agent_collab.Base.Dict.{Dict, get, put}
use agent_collab.Base.Values.{
  Value, null, str, arr, obj, Items, nil, cons, Fields, end, field, get_field, has_field, put_field,
  append_item,
}
use agent_collab.Outcomes.Records.{
  TurnOutcomeRecord, SessionFailure, record_from_dict, failure_from_dict,
}
use agent_collab.Sessions.{
  Status, interrupted, status_name, is_terminal, AgentSession, no_task, SessionState, Managed,
  World, with_state, persist,
}
use agent_collab.Sessions.Lifecycle.{transition_state}

pub record StoredState : Type 0 where
  pub session_id : String
  pub status : Status
  pub jsonl_path : String
  pub markdown_path : String
  pub updated_at : String
  pub interactive : Bool
  pub ended_at : Option String
  pub error : Option String
  pub failure : Value
  pub turn_outcomes : Value
  pub agent_sessions : Option (Dict AgentSession)
  pub settings : Value
  pub agents : Dict String

-- The sandbox of a session that was recorded before there were sandboxes.
abbrev pub legacy_sandbox : Value
legacy_sandbox = obj (
    field "requested" null (
      field "effective" (str "none") (
        field "source" (str "legacy_session")
          (field "engine" (str "none") (field "establishment" (str "historical_unenforced") end)))))

abbrev pub legacy_warning : Value
legacy_warning = obj (
    field "code" (str "outer_sandbox_legacy_session") (
      field "path" (str "sandbox") (
        field "message"
          (str "this session predates outer-sandbox recording and remains historically unenforced")
          end)))

-- `warnings.append(...)` where the warnings are a list
abbrev pub with_warning : Value → Value
with_warning (arr items) = arr (append_item items legacy_warning)
with_warning v = v

-- `settings.setdefault("warnings", [])`
unfoldable pub warnings_of : Fields → Value
unfolding has_field get_field
warnings_of fs = if has_field fs "warnings" then get_field fs "warnings" else arr nil

unfoldable pub note_fields : Fields → Fields
unfolding put_field append_item warnings_of
note_fields fs =
    let noted = put_field fs "sandbox" legacy_sandbox in
    put_field noted "warnings" (with_warning (warnings_of noted))

-- Settings without a sandbox get one that says so, and a warning.
unfoldable pub note_settings : Value → Value
unfolding note_fields has_field
note_settings null = obj (note_fields end)
note_settings (obj fs) = if has_field fs "sandbox" then obj fs else obj (note_fields fs)
note_settings v = v

-- `except (AttributeError, TypeError, ValueError)`
abbrev pub is_caught : Error → Bool
is_caught value_error = true
is_caught type_error = true
is_caught attribute_error = true
is_caught _ = false

-- A value, or nothing where its constructor raised what is caught.
unfoldable pub caught {u} : {T : Type u} → Result T → Result (Option T)
caught (ok value) = ok (some value)
caught (err raised) = if is_caught raised then ok none else err raised

abbrev pub keep_some {u} : {T : Type u} → Option T → List T → List T
keep_some none rest = rest
keep_some (some value) rest = value ∷ rest

module _ (is_digit : Char → Bool) where
  unfoldable pub restore_failure : Value → Result (Option SessionFailure)
  unfolding caught failure_from_dict
  restore_failure null = ok none
  restore_failure v = caught (failure_from_dict is_digit v)

  -- The loop over the items of a list of outcomes.
  unfoldable pub restore_items : Items → Result (List TurnOutcomeRecord)
  unfolding caught record_from_dict
  restore_items nil = ok []
  restore_items (cons v vs) =
      let rest = restore_items vs in
      do kept ← caught (record_from_dict is_digit v); records ← rest; ok (keep_some kept records)

  unfoldable pub restore_outcomes : Value → Result (Option (List TurnOutcomeRecord))
  unfolding restore_items
  restore_outcomes null = ok none
  restore_outcomes (arr items) = restore_items items >>= λ records. ok (some records)
  restore_outcomes v = ok (some [])

  -- The fields of the state that is made of a record.
  unfoldable pub read_state : StoredState → Result (Option SessionState)
  unfolding restore_failure restore_outcomes note_settings
  read_state r = do
    failure ← restore_failure r.failure
    outcomes ← restore_outcomes r.turn_outcomes
    ok (
        some (record {
          session_id = r.session_id;
          status = r.status;
          jsonl_path = r.jsonl_path;
          markdown_path = r.markdown_path;
          updated_at = r.updated_at;
          interactive = r.interactive;
          ended_at = r.ended_at;
          error = r.error;
          failure = failure;
          turn_outcomes = outcomes;
          agent_sessions = r.agent_sessions;
          settings = note_settings r.settings;
          agents = r.agents;
        }))

  -- _state_from_record
  unfoldable pub state_from_record : StoredState → Result (Option SessionState)
  unfolding read_state status_name
  state_from_record r =
      if is_truthy r.session_id && is_truthy (status_name r.status) then read_state r else ok none

-- `_ManagedSession(request=None, state=state, ...)`
abbrev pub restored_session : SessionState → Managed
restored_session s = record {
  request = none;
  state = s;
  events = [];
  queue = [];
  unfinished = 0;
  appender = false;
  turn_active = false;
  input_accepting = false;
  answer_ledger = [];
  task = no_task;
  stop_requested = false;
  notify_pending = false;
}

-- A session that was not terminal was cut off by the restart.
unfoldable pub interrupt : (disk : Bool) (now : String) → World → World
interrupt disk now w =
    if is_terminal w.state.status
    then w
    else persist disk (
        with_state w (record (transition_state w.state interrupted).0 {
          error = none;
          updated_at = now;
          ended_at = some now;
        }))

-- The sessions of the manager and its index.
pub record Restored : Type 0 where
  pub sessions : Dict Managed
  pub index : Option (Dict SessionState)

-- A restored state becomes a session, unless its id is taken.
unfoldable pub admit :
    (disk : Bool) (now : String) → Restored → SessionState → (known : Option Managed) → Restored
unfolding interrupt
admit disk now all s (some known) = all
admit disk now all s none =
    let w = interrupt disk now (record { managed = restored_session s; index = all.index }) in
    record { sessions = put all.sessions s.session_id w.managed; index = w.index }

unfoldable pub add_restored :
    (disk : Bool) (now : String) → Restored → Option SessionState → Restored
unfolding admit
add_restored disk now all none = all
add_restored disk now all (some s) = admit disk now all s (get all.sessions s.session_id)

module _ (is_digit : Char → Bool) (disk : Bool) (now : String) where
  -- _restore_from_index, on the records in the order of their ids
  unfoldable pub restore_from_index : Restored → List StoredState → Result Restored
  unfolding state_from_record add_restored
  restore_from_index all [] = ok all
  restore_from_index all (r ∷ rs) =
      state_from_record is_digit r >>= λ s. restore_from_index (add_restored disk now all s) rs
