-- ===== src/Sandbox/Policy.antt =====
-- agent_collab/sandbox/policy.py, with the enums of agent_collab/sandbox/specs.py. A member of a
-- text enum is its text, so a policy and its name are one wire value.
use agent_collab.Base.{
  String, Bool, true, false, Option, none, some, if◌then◌else◌, ◌==◌, Result, ok, err, ◌>>=◌,
  sandbox_failure,
}
use agent_collab.Base.Values.{Value, null, str}

-- SandboxPolicy
pub data SandboxPolicy : Type 0 where
  read_only no_sandbox : SandboxPolicy

unfoldable pub policy_name : SandboxPolicy → String
policy_name read_only = "read-only"
policy_name no_sandbox = "none"

-- SandboxPolicySource
pub data PolicySource : Type 0 where
  request configured_default installation_override legacy_session : PolicySource

-- ResolvedSandboxPolicy
pub record ResolvedSandboxPolicy : Type 0 where
  pub requested : Option SandboxPolicy
  pub effective : SandboxPolicy
  pub source : PolicySource

-- `SandboxPolicy(value)` of a text
unfoldable pub policy_of_name : String → Option SandboxPolicy
policy_of_name s =
    if s == "read-only" then some read_only else if s == "none" then some no_sandbox else none

abbrev or_failure : Option SandboxPolicy → Result SandboxPolicy
or_failure (some p) = ok p
or_failure none = err sandbox_failure

-- parse_sandbox_policy with allow_none=False
unfoldable pub parse_required : Value → Result SandboxPolicy
unfolding policy_of_name
parse_required (str s) = or_failure (policy_of_name s)
parse_required v = err sandbox_failure

-- parse_sandbox_policy
unfoldable pub parse_sandbox_policy : Value → Result (Option SandboxPolicy)
unfolding parse_required
parse_sandbox_policy null = ok none
parse_sandbox_policy v = parse_required v >>= λ p. ok (some p)

unfoldable pub same_policy : SandboxPolicy → SandboxPolicy → Bool
same_policy read_only read_only = true
same_policy no_sandbox no_sandbox = true
same_policy _ _ = false

-- The branch of a legacy session.
unfoldable pub resolve_legacy : Option SandboxPolicy → Result ResolvedSandboxPolicy
resolve_legacy (some read_only) = err sandbox_failure
resolve_legacy override =
    ok (record { requested = none; effective = no_sandbox; source = legacy_session })

-- The other branches, on the parsed values.
unfoldable pub resolve_values :
    (requested : Option SandboxPolicy) (default : SandboxPolicy) (override : Option SandboxPolicy)
    → Result ResolvedSandboxPolicy
unfolding same_policy
resolve_values none default (some o) =
    ok (record { requested = none; effective = o; source = installation_override })
resolve_values (some r) default (some o) =
    if same_policy r o
    then ok (record { requested = some r; effective = o; source = installation_override })
    else err sandbox_failure
resolve_values (some r) default none =
    ok (record { requested = some r; effective = r; source = request })
resolve_values none default none =
    ok (record { requested = none; effective = default; source = configured_default })

-- resolve_sandbox_policy
unfoldable pub resolve_sandbox_policy :
    (requested default override : Value) (is_legacy : Bool) → Result ResolvedSandboxPolicy
unfolding parse_sandbox_policy parse_required resolve_legacy resolve_values
resolve_sandbox_policy requested default override is_legacy = do
  r ← parse_sandbox_policy requested
  d ← parse_required default
  o ← parse_sandbox_policy override
  if is_legacy then resolve_legacy o else resolve_values r d o
