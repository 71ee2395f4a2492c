-- ===== src/Outcomes/Codes.antt =====
-- The closed vocabularies of agent_collab/outcomes.py: outcome kinds, failure codes with their
-- messages, stop reasons and backend names. Each constant is written in the test that reads it.
use agent_collab.Base.{
  ◌≡◌, refl, String, Bool, Option, none, some, [], ◌∷◌, if◌then◌else◌, ◌==◌, ◌||◌, any,
}
use agent_collab.Base.Dict.{Dict, get}
use agent_collab.Base.Text.{member}

-- OUTCOME_KINDS
pub data Kind : Type 0 where
  completed cancelled interrupted timed_out refused failed : Kind

unfoldable pub kind_name : Kind → String
kind_name completed = "completed"
kind_name cancelled = "cancelled"
kind_name interrupted = "interrupted"
kind_name timed_out = "timed_out"
kind_name refused = "refused"
kind_name failed = "failed"

unfoldable pub kind_of_name : String → Option Kind
kind_of_name s =
    if s == "completed"
    then some completed
    else if s == "cancelled"
    then some cancelled
    else if s == "interrupted"
    then some interrupted
    else if s == "timed_out"
    then some timed_out
    else if s == "refused"
    then some refused
    else if s == "failed"
    then some failed
    else none

pub kind_of_name-kind_name : (k : Kind) → kind_of_name (kind_name k) ≡ some k
unfolding kind_of_name kind_name
kind_of_name-kind_name completed = refl
kind_of_name-kind_name cancelled = refl
kind_of_name-kind_name interrupted = refl
kind_of_name-kind_name timed_out = refl
kind_of_name-kind_name refused = refl
kind_of_name-kind_name failed = refl

-- OUTER_SANDBOX_FAILURE_CODES
unfoldable pub is_sandbox_code : String → Bool
is_sandbox_code code = member code (
    "outer_sandbox_alias_audit_exceeded" ∷ "outer_sandbox_alias_audit_failed"
    ∷ "outer_sandbox_backend_incompatible" ∷ "outer_sandbox_bootstrap_failed"
    ∷ "outer_sandbox_capabilities_present" ∷ "outer_sandbox_cwd_mismatch"
    ∷ "outer_sandbox_engine_incompatible" ∷ "outer_sandbox_engine_missing"
    ∷ "outer_sandbox_filesystem_unsupported" ∷ "outer_sandbox_git_discovery_invalid"
    ∷ "outer_sandbox_git_discovery_unavailable" ∷ "outer_sandbox_git_identity_mismatch"
    ∷ "outer_sandbox_hardlink_alias" ∷ "outer_sandbox_inner_command_invalid"
    ∷ "outer_sandbox_legacy_session" ∷ "outer_sandbox_mount_alias" ∷ "outer_sandbox_mount_conflict"
    ∷ "outer_sandbox_mount_proof_failed" ∷ "outer_sandbox_mount_table_invalid"
    ∷ "outer_sandbox_mount_table_unavailable" ∷ "outer_sandbox_namespace_invalid"
    ∷ "outer_sandbox_override_conflict" ∷ "outer_sandbox_path_identity_changed"
    ∷ "outer_sandbox_path_invalid" ∷ "outer_sandbox_path_missing" ∷ "outer_sandbox_path_ownership"
    ∷ "outer_sandbox_path_permissions" ∷ "outer_sandbox_path_symlink"
    ∷ "outer_sandbox_platform_unsupported" ∷ "outer_sandbox_policy_invalid"
    ∷ "outer_sandbox_proc_identity_unavailable" ∷ "outer_sandbox_protocol_invalid"
    ∷ "outer_sandbox_recursive_read_only_unavailable" ∷ "outer_sandbox_scratch_anchor_invalid"
    ∷ "outer_sandbox_status_contradiction" ∷ "outer_sandbox_status_invalid"
    ∷ "outer_sandbox_unsupported" ∷ "outer_sandbox_writable_git_overlap"
    ∷ "outer_sandbox_writable_too_broad" ∷ "outer_sandbox_writable_workspace_overlap"
    ∷ "outer_sandbox_worker_protocol_invalid" ∷ "outer_sandbox_worker_terminated"
    ∷ "outer_sandbox_worker_backpressure_exceeded" ∷ [])

-- CANONICAL_MESSAGES, before its update
abbrev pub canonical_messages : Dict String
canonical_messages =
    ("provider_turn_cancelled", "The provider cancelled the turn")
    ∷ ("provider_turn_refused", "The provider refused the turn")
    ∷ ("provider_terminal_failure", "The provider reported a terminal failure")
    ∷ ("provider_protocol_conflict", "The provider reported conflicting terminal states")
    ∷ ("provider_authentication_failed", "Provider authentication failed")
    ∷ ("provider_entitlement_failed", "Provider access is not entitled")
    ∷ ("provider_model_unavailable", "The requested provider model is unavailable")
    ∷ ("provider_transport_failed", "The provider transport failed")
    ∷ ("provider_output_invalid", "The provider output was invalid")
    ∷ ("provider_output_incomplete", "The provider output ended before terminal completion")
    ∷ ("provider_empty_response", "The provider returned no usable response")
    ∷ ("local_turn_timed_out", "The turn exceeded its local deadline")
    ∷ ("local_turn_interrupted", "The turn was interrupted by an explicit session stop")
    ∷ ("referee_cancelled_unexpected", "The turn supervisor was cancelled unexpectedly")
    ∷ ("subprocess_exit_nonzero", "The provider subprocess exited unsuccessfully")
    ∷ ("parallel_stage_no_accepted_member", "No parallel reviewer produced an accepted review")
    ∷ []

-- The message of every sandbox code
abbrev pub sandbox_message : String
sandbox_message = "The outer sandbox rejected the provider launch"

-- CANONICAL_MESSAGES, after its update by the sandbox codes
unfoldable pub message_of_code : String → Option String
unfolding is_sandbox_code get
message_of_code code =
    if is_sandbox_code code then some sandbox_message else get canonical_messages code

-- CANONICAL_SAFE_ERRORS of agent_collab/daemon.py
unfoldable pub is_safe_error : String → Bool
is_safe_error s = (s == sandbox_message) || any (λ e. e.1 == s) canonical_messages

-- PROVIDER_STOP_REASONS
unfoldable pub is_stop_reason : String → Bool
is_stop_reason reason = member reason (
    "EndTurn" ∷ "end_turn" ∷ "Cancelled" ∷ "cancelled" ∷ "max_tokens" ∷ "max_turn_requests"
    ∷ "refusal" ∷ "STOP" ∷ "MAX_TOKENS" ∷ "LENGTH" ∷ "completed" ∷ "failed" ∷ "interrupted"
    ∷ "success" ∷ "error" ∷ [])

-- CANONICAL_BACKENDS
unfoldable pub is_backend : String → Bool
is_backend name = member name (
    "claude_cli" ∷ "codex_cli" ∷ "antigravity_cli" ∷ "xai_cli" ∷ "claude_sdk" ∷ "codex_sdk"
    ∷ "antigravity_sdk" ∷ "xai_sdk" ∷ "mock" ∷ [])
