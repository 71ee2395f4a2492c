-- ===== src/Workflows/Selection.antt =====
-- A start's choice of members: resolve_workflow_members of agent_collab/options.py and its use in
-- _prepare_session_start of agent_collab/daemon.py. `repr` is Python's, which `!r` calls.
use Prim.Native.String.{◌++◌ as ◌<>◌}
use agent_collab.Base.{
  String, Bool, not, ◌&&◌, Option, none, some, List, [], ◌∷◌, ◌++◌, map, any, all, if◌then◌else◌,
  ◌==◌,
}
use agent_collab.Base.Text.{member, is_truthy, join}
use agent_collab.Base.Dict.{Dict, get, put}
use agent_collab.Base.Values.{Value, null, str, obj, Fields, end, field}
use agent_collab.Workflows.{
  WorkflowConfig, CollaborationConfig, workflow_member_slots, MemberState, usable, disabled,
  unknown, workflow_member_state,
}

pub record Detail : Type 0 where
  pub path : String
  pub message : String

-- The details of a StartOptionsError, or the workflow that was selected, if it differs.
pub data MemberSelection : Type 0 where
  rejected : List Detail → MemberSelection
  unchanged : MemberSelection
  replaced : WorkflowConfig → MemberSelection

-- A value of the selection, once checked.
pub data Choice : Type 0 where
  wrong : Detail → Choice
  chosen : (agent : String) → Choice

-- `errors` and `mapping`
pub record Gathered : Type 0 where
  pub errors : List Detail
  pub mapping : Dict String

-- _dedupe_details
abbrev pub same_detail : Detail → Detail → Bool
same_detail d e = (d.path == e.path) && (d.message == e.message)

unfoldable pub dedupe_from : (seen details : List Detail) → List Detail
dedupe_from seen [] = []
dedupe_from seen (d ∷ ds) =
    let rest = dedupe_from (d ∷ seen) ds in
    let skip = dedupe_from seen ds in if any (λ e. same_detail e d) seen then skip else d ∷ rest

-- mapping.get(member, member)
abbrev pub or_itself : String → Option String → String
or_itself m none = m
or_itself m (some agent) = agent

unfoldable pub fill : Dict String → String → String
fill mapping m = or_itself m (get mapping m)

abbrev pub agent_name : Value → Option String
agent_name (str s) = if is_truthy s then some s else none
agent_name v = none

module _ (repr : String → String) (config : CollaborationConfig) (workflow_id : String) where
  abbrev pub choose_agent : (slot agent : String) → MemberState → Choice
  choose_agent slot agent usable = chosen agent
  choose_agent slot agent disabled = wrong record {
    path = "members." <> slot;
    message =
        "references agent "
        <> (repr agent
            <> " of a disabled backend; enable it in the user config or select an enabled agent");
  }
  choose_agent slot agent unknown =
      wrong
        record { path = "members." <> slot; message = "references unknown agent " <> repr agent }

  abbrev pub choose_named : (slot : String) → Option String → Choice
  choose_named slot none =
      wrong record { path = "members." <> slot; message = "must be an agent id string" }
  choose_named slot (some agent) = choose_agent slot agent (workflow_member_state config agent)

  -- The body of the loop over the selection.
  unfoldable pub choose : (slots : List String) → (slot : String) → Value → Choice
  choose slots slot value =
      if not (is_truthy slot)
      then wrong record { path = "members"; message = "slot names must be non-empty strings" }
      else if not (member slot slots)
      then wrong record {
        path = "members." <> slot;
        message =
            "unknown slot for workflow "
            <> (repr workflow_id <> ("; expected one of: " <> join ", " slots));
      }
      else choose_named slot (agent_name value)

  abbrev pub take_choice : Gathered → (slot : String) → Choice → Gathered
  take_choice g slot (wrong d) = record g { errors = g.errors ++ d ∷ [] }
  take_choice g slot (chosen agent) = record g { mapping = put g.mapping slot agent }

  unfoldable pub gather : (slots : List String) → Gathered → Fields → Gathered
  unfolding choose
  gather slots g end = g
  gather slots g (field slot value rest) =
      gather slots (take_choice g slot (choose slots slot value)) rest

  -- The loop over the substituted members of a parallel workflow. `seen` maps agents to slots.
  abbrev pub taken_slot : (slot agent : String) → Option String → Option Detail
  taken_slot slot agent none = none
  taken_slot slot agent (some other) = some record {
    path = "members." <> slot;
    message =
        "parallel workflow "
        <> (repr workflow_id
            <> (" members must be distinct; "
                <> (repr agent <> (" already fills slot " <> repr other))));
  }

  abbrev pub with_detail : Option Detail → (fresh known : List Detail) → List Detail
  with_detail none fresh known = fresh
  with_detail (some d) fresh known = d ∷ known

  unfoldable pub repeated_members : (mapping seen : Dict String) → List String → List Detail
  unfolding fill
  repeated_members mapping seen [] = []
  repeated_members mapping seen (slot ∷ slots) =
      let agent = fill mapping slot in
      let fresh = repeated_members mapping (put seen agent slot) slots in
      let known = repeated_members mapping seen slots in
      with_detail (taken_slot slot agent (get seen agent)) fresh known

  abbrev pub unless_errors : List Detail → WorkflowConfig → MemberSelection
  unless_errors [] w = replaced w
  unless_errors (d ∷ ds) w = rejected (d ∷ ds)

  -- The workflow with its members substituted.
  unfoldable pub substitute_as :
      (id : String) (sequence : List String)
      → Option (List String)
      → (mapping : Dict String) → MemberSelection
  unfolding fill repeated_members
  substitute_as id sequence none mapping =
      replaced record { id = id; sequence = map (fill mapping) sequence; parallel = none }
  substitute_as id sequence (some group) mapping =
      unless_errors (repeated_members mapping [] group)
        record { id = id; sequence = []; parallel = some (map (fill mapping) group) }

  unfoldable pub substitute : WorkflowConfig → (mapping : Dict String) → MemberSelection
  unfolding substitute_as
  substitute w mapping = substitute_as w.id w.sequence w.parallel mapping

  abbrev pub apply_choices :
      WorkflowConfig → (errors : List Detail) (mapping : Dict String) → MemberSelection
  apply_choices w (d ∷ ds) mapping = rejected (dedupe_from [] (d ∷ ds))
  apply_choices w [] mapping =
      if all (λ e. e.1 == e.0) mapping then unchanged else substitute w mapping

  unfoldable pub gathered : WorkflowConfig → Fields → Gathered
  unfolding workflow_member_slots gather
  gathered w fields = gather (workflow_member_slots w) record { errors = []; mapping = [] } fields

  unfoldable pub select_members : Option WorkflowConfig → Fields → MemberSelection
  unfolding gathered substitute dedupe_from
  select_members none fields =
      rejected
        (record { path = "workflow"; message = "unknown workflow " <> repr workflow_id } ∷ [])
  select_members (some w) fields = let g = gathered w fields in apply_choices w g.errors g.mapping

  -- resolve_workflow_members
  unfoldable pub resolve_workflow_members : (members : Value) → MemberSelection
  unfolding select_members
  resolve_workflow_members null = unchanged
  resolve_workflow_members (obj end) = unchanged
  resolve_workflow_members (obj (field k v fs)) =
      select_members (get config.workflows workflow_id) (field k v fs)
  resolve_workflow_members v =
      rejected (record { path = "members"; message = "must be an object" } ∷ [])
