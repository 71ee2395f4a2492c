-- ===== src/Index.antt =====
-- agent_collab/session_index.py: the index file of the daemon's sessions. The file is what
-- `json.loads` reads from it, or nothing where it is missing or corrupt; `show` is `str` of a value,
-- and `sorted` the order in which `json.dumps` writes the keys.
pub mod Entries
mod Examples
use agent_collab.Base.{
  ℕ, String, Bool, true, false, not, Option, none, some, List, [], ◌∷◌, select, length,
  if◌then◌else◌, ◌==◌, ◌=?◌, Result, ok, err, value_error,
}
use agent_collab.Base.Text.{member}
use agent_collab.Base.Dict.{Dict, put}
use agent_collab.Base.Values.{Value, null, int, pos, str, obj, Fields, end, field, get_field}

abbrev pub File : Type 0
File = Option Value

-- {id: dict(state) for id, state in sessions.items() if isinstance(state, dict)}
unfoldable pub states_of : Fields → Dict Fields
states_of end = []
states_of (field k (obj d) fs) = (k, d) ∷ states_of fs
states_of (field k v fs) = states_of fs

abbrev pub sessions_in : Value → Dict Fields
sessions_in (obj s) = states_of s
sessions_in v = []

-- load
unfoldable pub load : File → Dict Fields
unfolding states_of get_field
load (some (obj d)) = sessions_in (get_field d "sessions")
load _ = []

unfoldable pub fields_of : Dict Fields → Fields
fields_of [] = end
fields_of ((k, d) ∷ rest) = field k (obj d) (fields_of rest)

module _ (sorted : Dict Fields → Dict Fields) (show : Value → String) where
  -- _write
  unfoldable pub write : Dict Fields → File
  unfolding fields_of
  write sessions = some (
      obj
        (field "version" (int (pos 1)) (field "sessions" (obj (fields_of (sorted sessions))) end)))

  -- str(state.get("session_id", ""))
  abbrev pub shown_id : Value → String
  shown_id (str s) = s
  shown_id v = show v

  unfoldable pub id_of_state : Fields → String
  id_of_state end = ""
  id_of_state (field k v fs) =
      let rest = id_of_state fs in if k == "session_id" then shown_id v else rest

  -- upsert
  unfoldable pub upsert : File → Fields → Result File
  unfolding load write id_of_state
  upsert file state =
      let id = id_of_state state in
      if id == "" then err value_error else ok (write (put (load file) id state))

  -- remove_many
  unfoldable pub remove_many : File → List String → File
  unfolding load write
  remove_many file [] = file
  remove_many file (i ∷ ids) =
      let sessions = load file in
      let remaining = select (λ e. not (member e.0 (i ∷ ids))) sessions in
      if length remaining =? length sessions then file else write remaining
