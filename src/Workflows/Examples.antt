-- ===== src/Workflows/Examples.antt =====
-- Workflows and starts of agent_collab/config.py, options.py and daemon.py on concrete inputs.
use Prim.Native.String.{String}
use agent_collab.Base.{true, false, some, [], ◌∷◌, ◌≡◌, refl}
use agent_collab.Base.Text.{join}
use agent_collab.Base.Dict.{get, put}
use agent_collab.Base.Values.{null, str, obj, end, field, pos, is_true}
use agent_collab.Workflows.{
  WorkflowConfig, CollaborationConfig, validate_workflow, workflow_member_state,
}
use agent_collab.Workflows.Selection.{rejected, resolve_workflow_members}
use agent_collab.Workflows.Starting.{StartRequest, start_workflow, with_workflow}
use agent_collab.Workflows.Starts.{SuitsKind, start_workflow-valid}
use agent_collab.Workflows.Effective.{KeepsWorkflow}

abbrev quoted : String → String
quoted s = s

abbrev duo : WorkflowConfig
duo = record { id = "duo"; sequence = []; parallel = some ("a" ∷ "b" ∷ []) }

abbrev duo_with_c : WorkflowConfig
duo_with_c = record { id = "duo"; sequence = []; parallel = some ("a" ∷ "c" ∷ []) }

abbrev config : CollaborationConfig
config = record {
  agents = ("a", true) ∷ ("b", true) ∷ ("c", true) ∷ ("off", false) ∷ [];
  backends = ("shut", "x" ∷ []) ∷ [];
  workflows = ("duo", duo) ∷ [];
}

abbrev request : StartRequest
request = record {
  workflow = "duo";
  members = obj (field "b" (str "c") end);
  interactive = false;
  max_turns = pos 2;
}

start_workflow-valid_example :
    KeepsWorkflow (with_workflow config "duo" duo_with_c) "duo" false duo duo_with_c
    × SuitsKind request duo_with_c
unfolding get validate_workflow start_workflow is_true resolve_workflow_members put
start_workflow-valid_example =
    start_workflow-valid quoted "duo" request config false duo refl refl
      (with_workflow config "duo" duo_with_c) duo_with_c refl

test_repeated_member :
    resolve_workflow_members quoted config "duo" (obj (field "b" (str "a") end))
    ≡ rejected (
        record {
          path = "members.b";
          message = "parallel workflow duo members must be distinct; a already fills slot a";
        }
        ∷ [])
unfolding resolve_workflow_members get workflow_member_state join put
test_repeated_member = refl

test_wrong_members :
    resolve_workflow_members quoted config "duo"
      (obj (field "z" null (field "b" (str "off") (field "a" null end))))
    ≡ rejected (
        record {
          path = "members.z";
          message = "unknown slot for workflow duo; expected one of: a, b";
        }
        ∷ record {
          path = "members.b";
          message =
              "references agent off of a disabled backend; enable it in the user config or select an enabled agent";
        }
        ∷ record { path = "members.a"; message = "must be an agent id string" }
        ∷ [])
unfolding resolve_workflow_members get workflow_member_state join
test_wrong_members = refl
