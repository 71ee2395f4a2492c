-- ===== src/Sandbox/Precedence.antt =====
-- Which policy a session ends up with.
use agent_collab.Base.{
  ◌≡◌, refl, ◌⊎◌, inl, inr, Bool, true, false, Option, none, some, arith, if◌then◌else◌, ok,
  >>=-eq-ok, eq_iff, subst, ◌∙◌, ap,
}
use agent_collab.Base.Values.{Value, null, str}
use agent_collab.Sandbox.Policy.{
  SandboxPolicy, read_only, no_sandbox, policy_name, policy_of_name, installation_override,
  ResolvedSandboxPolicy, parse_required, parse_sandbox_policy, same_policy, resolve_legacy,
  resolve_values, resolve_sandbox_policy,
}

parse_sandbox_policy-policy_name :
    (o : SandboxPolicy) → parse_sandbox_policy (str (policy_name o)) ≡ ok (some o)
unfolding parse_sandbox_policy parse_required policy_of_name policy_name
parse_sandbox_policy-policy_name read_only = refl
parse_sandbox_policy-policy_name no_sandbox = refl

-- A policy that follows an override: the session is of that policy, and so is a request, or the
-- session is a legacy one under an override that asks for no sandbox.
abbrev pub Follows : SandboxPolicy → Bool → ResolvedSandboxPolicy → Type 0
Follows o is_legacy p =
    ((p.effective ≡ o)
      × (p.source ≡ installation_override)
      × ((p.requested ≡ none) ⊎ (p.requested ≡ some o)))
    ⊎ ((is_legacy ≡ true) × (o ≡ no_sandbox) × (p.effective ≡ no_sandbox))

resolve_legacy-Follows :
    (o : SandboxPolicy) (p : ResolvedSandboxPolicy)
    → resolve_legacy (some o) ≡ ok p
    → Follows o true p
unfolding resolve_legacy
resolve_legacy-Follows read_only p h = cc
resolve_legacy-Follows no_sandbox p h = inr (refl, refl, ground arith)

resolve_values-Follows :
    (r : Option SandboxPolicy) (d o : SandboxPolicy) (p : ResolvedSandboxPolicy) (l : Bool)
    → resolve_values r d (some o) ≡ ok p
    → Follows o l p
unfolding resolve_values same_policy
resolve_values-Follows none d o p l h = inl (ground arith, ground arith, inl (ground arith))
resolve_values-Follows (some read_only) d read_only p l h =
    inl (ground arith, ground arith, inr (ground arith))
resolve_values-Follows (some no_sandbox) d no_sandbox p l h =
    inl (ground arith, ground arith, inr (ground arith))
resolve_values-Follows (some read_only) d no_sandbox p l h = cc
resolve_values-Follows (some no_sandbox) d read_only p l h = cc

-- What an accepted resolution has parsed and chosen.
abbrev Parsed :
    (requested default override : Value) (is_legacy : Bool) → ResolvedSandboxPolicy → Type 0
Parsed requested default override is_legacy p =
    (r : Option SandboxPolicy) × (d : SandboxPolicy) × (o : Option SandboxPolicy)
    × (parse_sandbox_policy requested ≡ ok r)
    × (parse_required default ≡ ok d)
    × (parse_sandbox_policy override ≡ ok o)
    × ((if is_legacy then resolve_legacy o else resolve_values r d o) ≡ ok p)

resolve_sandbox_policy-Parsed :
    (requested default override : Value) (is_legacy : Bool) (p : ResolvedSandboxPolicy)
    → resolve_sandbox_policy requested default override is_legacy ≡ ok p
    → Parsed requested default override is_legacy p
unfolding resolve_sandbox_policy
resolve_sandbox_policy-Parsed requested default override is_legacy p h =
    let (r, er, h1) = >>=-eq-ok (parse_sandbox_policy requested) _ h in
    let (d, ed, h2) = >>=-eq-ok (parse_required default) _ h1 in
    let (o, eo, h3) = >>=-eq-ok (parse_sandbox_policy override) _ h2 in (r, d, o, er, ed, eo, h3)

-- An installation override binds: every resolution that is accepted under it has its policy, whatever
-- the request and the default are, and a request, if any, for the same one; only a legacy session
-- passes it by, and only where it asks for no sandbox.
pub resolve_sandbox_policy-Follows :
    (requested default : Value) (o : SandboxPolicy) (is_legacy : Bool) (p : ResolvedSandboxPolicy)
    → resolve_sandbox_policy requested default (str (policy_name o)) is_legacy ≡ ok p
    → Follows o is_legacy p
resolve_sandbox_policy-Follows requested default o is_legacy p h =
    let (r, d, o', er, ed, eo, e) =
      resolve_sandbox_policy-Parsed requested default (str (policy_name o)) is_legacy p h in
    let same : o' ≡ some o = cc (eo, parse_sandbox_policy-policy_name o) in
    branch r d is_legacy
      (subst (λ x. (if is_legacy then resolve_legacy x else resolve_values r d x) ≡ ok p) same e)
  where
    branch :
        (r : Option SandboxPolicy) (d : SandboxPolicy) (l : Bool)
        → (if l then resolve_legacy (some o) else resolve_values r d (some o)) ≡ ok p
        → Follows o l p
    branch r d true e = resolve_legacy-Follows o p e
    branch r d false e = resolve_values-Follows r d o p false e

parsed_none : (v : Value) → parse_required v ≡ ok no_sandbox → v ≡ str "none"
unfolding parse_required policy_of_name
parsed_none (str s) h = ground (arith, eq_iff s "read-only", eq_iff s "none")
parsed_none _ h = cc

given_none : (v : Value) → parse_sandbox_policy v ≡ ok (some no_sandbox) → v ≡ str "none"
unfolding parse_sandbox_policy
given_none null h = cc
given_none v h = parsed_none v (ground arith)

values_none :
    (r : Option SandboxPolicy) (d : SandboxPolicy) (o : Option SandboxPolicy)
    (p : ResolvedSandboxPolicy)
    → resolve_values r d o ≡ ok p
    → p.effective ≡ no_sandbox
    → (r ≡ some no_sandbox) ⊎ (d ≡ no_sandbox) ⊎ (o ≡ some no_sandbox)
unfolding resolve_values
values_none none d (some o) p h n = inr (inr (ground arith))
values_none (some r) d (some o) p h n = inr (inr (ground arith))
values_none (some r) d none p h n = inl (ground arith)
values_none none d none p h n = inr (inl (ground arith))

-- A session runs without a sandbox only if it is a legacy one or if the request, the configured default
-- or the installation override is the text "none".
pub resolve_none :
    (requested default override : Value) (is_legacy : Bool) (p : ResolvedSandboxPolicy)
    → resolve_sandbox_policy requested default override is_legacy ≡ ok p
    → p.effective ≡ no_sandbox
    → (is_legacy ≡ true)
      ⊎ (requested ≡ str "none")
      ⊎ (default ≡ str "none")
      ⊎ (override ≡ str "none")
resolve_none requested default override true p h n = inl refl
resolve_none requested default override false p h n =
    let (r, d, o, er, ed, eo, e) =
      resolve_sandbox_policy-Parsed requested default override false p h in
    elim (values_none r d o p e n) [
      | inl k ↦ inr (inl (given_none requested (er ∙ ap ok k)))
      | inr (inl k) ↦ inr (inr (inl (parsed_none default (ed ∙ ap ok k))))
      | inr (inr k) ↦ inr (inr (inr (given_none override (eo ∙ ap ok k))))
    ]
