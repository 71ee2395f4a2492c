-- ===== src/Workflows/Starting.antt =====
-- The workflow of a start: the part of _prepare_session_start of agent_collab/daemon.py that looks
-- the workflow up, puts the chosen members in it and refuses what a parallel workflow cannot do.
-- `available` is the text that lists the known workflows.
use Prim.Native.String.{◌++◌ as ◌<>◌}
use agent_collab.Base.{
  String, Bool, true, false, Option, none, some, List, [], ◌∷◌, ◌++◌, if◌then◌else◌, ◌=?◌,
}
use agent_collab.Base.Dict.{get, put}
use agent_collab.Base.Values.{Value, ℤ, pos, negsuc, is_true}
use agent_collab.Workflows.{WorkflowConfig, CollaborationConfig}
use agent_collab.Workflows.Selection.{
  Detail, MemberSelection, rejected, unchanged, replaced, resolve_workflow_members,
}

-- What of a StartSessionRequest is read here.
pub record StartRequest : Type 0 where
  pub workflow : String
  pub members : Value
  pub interactive : Bool
  pub max_turns : ℤ

-- The details of a StartOptionsError, or the configuration and the workflow of the session.
pub data Started : Type 0 where
  refused : List Detail → Started
  started : CollaborationConfig → WorkflowConfig → Started

-- collab_config.workflows[id] = workflow
abbrev pub with_workflow :
    CollaborationConfig → (id : String) → WorkflowConfig → CollaborationConfig
with_workflow config id w = record config { workflows = put config.workflows id w }

-- int(request.max_turns) < 1
abbrev pub lacks_turns : ℤ → Bool
lacks_turns (pos n) = n =? 0
lacks_turns (negsuc n) = true

abbrev pub is_group : Option (List String) → Bool
is_group none = false
is_group (some group) = true

abbrev pub is_parallel : WorkflowConfig → Bool
is_parallel w = is_group w.parallel

module _ (repr : String → String) (available : String) where
  abbrev pub interactive_error : StartRequest → List Detail
  interactive_error request =
      if request.interactive
      then record {
        path = "interactive";
        message =
            "workflow "
            <> (repr request.workflow
                <> " is a parallel workflow; interactive sessions are not supported — start it with interactive=false");
      }
        ∷ []
      else []

  abbrev pub turns_error : StartRequest → List Detail
  turns_error request =
      if lacks_turns request.max_turns
      then record {
        path = "max_turns";
        message =
            "workflow "
            <> (repr request.workflow <> " is a parallel workflow; max_turns must be at least 1");
      }
        ∷ []
      else []

  abbrev pub refuse_or : List Detail → Started → Started
  refuse_or [] s = s
  refuse_or (d ∷ ds) s = refused (d ∷ ds)

  unfoldable pub check_parallel : CollaborationConfig → WorkflowConfig → StartRequest → Started
  check_parallel config w request =
      if is_parallel w
      then refuse_or (interactive_error request ++ turns_error request) (started config w)
      else started config w

  abbrev pub fold_selection :
      CollaborationConfig → WorkflowConfig → StartRequest → MemberSelection → Started
  fold_selection config w request (rejected details) = refused details
  fold_selection config w request unchanged = check_parallel config w request
  fold_selection config w request (replaced v) =
      check_parallel (with_workflow config request.workflow v) v request

  abbrev pub start_known : CollaborationConfig → StartRequest → Option WorkflowConfig → Started
  start_known config request none = refused (
      record {
        path = "workflow";
        message = "unknown workflow " <> (repr request.workflow <> ("; available: " <> available));
      }
      ∷ [])
  start_known config request (some w) =
      if is_true request.members
      then fold_selection config w request
          (resolve_workflow_members repr config request.workflow request.members)
      else check_parallel config w request

  unfoldable pub start_workflow : CollaborationConfig → StartRequest → Started
  unfolding check_parallel
  start_workflow config request = start_known config request (get config.workflows request.workflow)
