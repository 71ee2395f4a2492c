-- ===== src/Workflows.antt =====
-- Workflows of agent_collab/config.py: the agents of a session in the order of their turns. The texts
-- of a ConfigError are not modelled. `section.agents` of a backend is the list of its persona names.
pub mod Choices
pub mod Effective
mod Examples
pub mod Merging
pub mod Selection
pub mod Starting
pub mod Starts
use Prim.Native.String.{[] as empty, ◌∷◌ as ◌:+◌}
use Prim.Native.Char.{code}
use agent_collab.Base.{
  ℕ, suc, String, Bool, true, false, not, ◌&&◌, ◌||◌, Option, none, some, List, [], ◌∷◌, length,
  ltb, ◌=?◌, if◌then◌else◌, ◌==◌, Result, ok, err, config_error, ◌>>=◌, ◌>>◌, require, type_error,
}
use agent_collab.Base.Text.{member, is_truthy}
use agent_collab.Base.Dict.{Dict, get}
use agent_collab.Base.Values.{Value, str, arr, obj, Items, cons, nil, Fields, end, field}

pub record WorkflowConfig : Type 0 where
  pub id : String
  pub sequence : List String
  pub parallel : Option (List String)

-- What of a CollaborationConfig is read here: whether an agent is enabled, the personas of a backend,
-- and the workflows.
pub record CollaborationConfig : Type 0 where
  pub agents : Dict Bool
  pub backends : Dict (List String)
  pub workflows : Dict WorkflowConfig

-- MAX_PARALLEL_WORKFLOW_WIDTH
abbrev pub max_parallel_width : ℕ
max_parallel_width = 4

-- workflow_members
abbrev pub members_as : (sequence : List String) → Option (List String) → List String
members_as sequence none = sequence
members_as sequence (some group) = group

unfoldable pub workflow_members : WorkflowConfig → List String
workflow_members w = members_as w.sequence w.parallel

-- list(dict.fromkeys(members))
unfoldable pub distinct_from : List String → List String → List String
distinct_from seen [] = []
distinct_from seen (m ∷ ms) =
    let rest = distinct_from (m ∷ seen) ms in
    let skip = distinct_from seen ms in if member m seen then skip else m ∷ rest

-- workflow_member_slots
unfoldable pub workflow_member_slots : WorkflowConfig → List String
unfolding workflow_members distinct_from
workflow_member_slots w = distinct_from [] (workflow_members w)

-- member_id.partition("."), without the dot
unfoldable pub partition_dot : String → String × String
partition_dot empty = ("", "")
partition_dot (c :+ s) =
    let (before, after) = partition_dot s in
    if code c =? b'.' then ("", s) else (c :+ before, after)

pub data MemberState : Type 0 where
  usable disabled unknown : MemberState

abbrev pub state_of_agent : Bool → MemberState
state_of_agent true = usable
state_of_agent false = disabled

-- A member id without an agent: a backend, or a persona of one, that has none because it is disabled.
abbrev pub state_of_section : (persona : String) → Option (List String) → MemberState
state_of_section persona none = unknown
state_of_section persona (some personas) =
    if is_truthy persona then (if member persona personas then disabled else unknown) else disabled

-- workflow_member_state
unfoldable pub workflow_member_state : CollaborationConfig → String → MemberState
unfolding partition_dot
workflow_member_state config id = elim (get config.agents id) [
  | some enabled ↦ state_of_agent enabled
  | none ↦
      let (canonical, persona) = partition_dot id in
      state_of_section persona (get config.backends canonical)
]

-- _expect_str_list
abbrev pub string_item : Value → Result String
string_item (str s) = ok s
string_item v = err config_error

unfoldable pub expect_items : Items → Result (List String)
expect_items nil = ok []
expect_items (cons v vs) = do s ← string_item v; rest ← expect_items vs; ok (s ∷ rest)

unfoldable pub expect_str_list : Value → Result (List String)
unfolding expect_items
expect_str_list (arr vs) = expect_items vs
expect_str_list v = err config_error

-- The loop of _merge_workflow.
abbrev pub as_sequence : WorkflowConfig → List String → Result WorkflowConfig
as_sequence w members = ok record w { sequence = members; parallel = none }

abbrev pub as_parallel : WorkflowConfig → List String → Result WorkflowConfig
as_parallel w members = ok record w { sequence = []; parallel = some members }

unfoldable pub merge_field : WorkflowConfig → String → Value → Result WorkflowConfig
unfolding expect_str_list
merge_field w key value =
    if key == "sequence"
    then expect_str_list value >>= as_sequence w
    else if key == "parallel"
    then expect_str_list value >>= as_parallel w
    else err config_error

unfoldable pub merge_fields : WorkflowConfig → Fields → Result WorkflowConfig
unfolding merge_field
merge_fields w end = ok w
merge_fields w (field key value rest) = merge_field w key value >>= (λ v. merge_fields v rest)

unfoldable pub has_key : Fields → String → Bool
has_key end k = false
has_key (field j v rest) k = (j == k) || has_key rest k

abbrev pub existing_or : Option WorkflowConfig → (id : String) → WorkflowConfig
existing_or none id = record { id = id; sequence = []; parallel = none }
existing_or (some w) id = w

-- _merge_workflow
unfoldable pub merge_workflow :
    (existing : Option WorkflowConfig) (workflow_id : String) → Fields → Result WorkflowConfig
unfolding has_key merge_fields
merge_workflow existing id values = do
  require (not (has_key values "sequence" && has_key values "parallel")) config_error
  merge_fields (existing_or existing id) values

-- The tests of a member's state in validate_workflow.
abbrev pub check_state : (allow_disabled : Bool) → MemberState → Result (Unit {0})
check_state allow usable = ok tt
check_state allow disabled = require allow config_error
check_state allow unknown = err config_error

unfoldable pub check_members :
    CollaborationConfig → (allow_disabled : Bool) → List String → Result (Unit {0})
unfolding workflow_member_state
check_members config allow [] = ok tt
check_members config allow (m ∷ ms) = do
  check_state allow (workflow_member_state config m)
  check_members config allow ms

-- The members of a parallel group, and of a workflow, of the right shape.
unfoldable pub shaped_group : (sequence group : List String) → Result (List String)
unfolding distinct_from
shaped_group sequence group = do
  require (length sequence =? 0) config_error
  require (not (length group =? 0)) config_error
  require (not (length group =? 1)) config_error
  require (length (distinct_from [] group) =? length group) config_error
  require (not (ltb max_parallel_width (length group))) config_error
  ok group

abbrev pub shaped_sequence : List String → Result (List String)
shaped_sequence sequence = do require (not (length sequence =? 0)) config_error; ok sequence

abbrev pub shaped_as : (sequence : List String) → Option (List String) → Result (List String)
shaped_as sequence none = shaped_sequence sequence
shaped_as sequence (some group) = shaped_group sequence group

unfoldable pub shaped_members : WorkflowConfig → Result (List String)
unfolding shaped_group
shaped_members w = shaped_as w.sequence w.parallel

abbrev pub known_workflow : Option WorkflowConfig → Result WorkflowConfig
known_workflow none = err config_error
known_workflow (some w) = ok w

-- validate_workflow
unfoldable pub validate_workflow :
    CollaborationConfig → (workflow_id : String) → (allow_disabled : Bool) → Result (Unit {0})
unfolding shaped_members check_members
validate_workflow config id allow = do
  w ← known_workflow (get config.workflows id)
  members ← shaped_members w
  check_members config allow members
