-- ===== src/Sandbox/Examples.antt =====
-- The theorems on the sandbox policy, at concrete settings.
use agent_collab.Base.{◌≡◌, refl, ◌⊎◌, true, false, some, ok}
use agent_collab.Base.Values.{null, str}
use agent_collab.Sandbox.Policy.{
  ResolvedSandboxPolicy, read_only, no_sandbox, request, installation_override, policy_name,
  resolve_sandbox_policy,
}
use agent_collab.Sandbox.Precedence.{Follows, resolve_sandbox_policy-Follows, resolve_none}

abbrev overridden : ResolvedSandboxPolicy
overridden = record {
  requested = some read_only;
  effective = read_only;
  source = installation_override;
}

overridden_resolved :
    resolve_sandbox_policy (str "read-only") (str "none") (str (policy_name read_only)) false
    ≡ ok overridden
unfolding resolve_sandbox_policy policy_name
overridden_resolved = refl

resolve_sandbox_policy-Follows_example : Follows read_only false overridden
resolve_sandbox_policy-Follows_example =
    resolve_sandbox_policy-Follows (str "read-only") (str "none") read_only false overridden
      overridden_resolved

abbrev open_request : ResolvedSandboxPolicy
open_request = record { requested = some no_sandbox; effective = no_sandbox; source = request }

open_resolved : resolve_sandbox_policy (str "none") (str "read-only") null false ≡ ok open_request
unfolding resolve_sandbox_policy
open_resolved = refl

resolve_none_example :
    (false ≡ true)
    ⊎ (str "none" ≡ str "none")
    ⊎ (str "read-only" ≡ str "none")
    ⊎ (null ≡ str "none")
resolve_none_example =
    resolve_none (str "none") (str "read-only") null false open_request open_resolved refl
