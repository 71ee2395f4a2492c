-- ===== src/Workflows/Effective.antt =====
-- A workflow with chosen members is as valid as the configured one.
use agent_collab.Base.{
  String, Bool, Option, none, some, List, [], ◌∷◌, map, length, ◌≡◌, refl, sym, ◌∙◌, ap, arith, ok,
  subst, >>=-eq-ok, ◌>>=◌,
}
use agent_collab.Base.Dict.{Dict, get, get-put_own}
use agent_collab.Base.Values.{Value, null, bool, int, float, str, arr, obj, Fields, end, field}
use agent_collab.Workflows.{
  WorkflowConfig, CollaborationConfig, members_as, workflow_members, usable, workflow_member_state,
  check_state, check_members, shaped_as, shaped_members, known_workflow, validate_workflow,
}
use agent_collab.Workflows.Selection.{
  Detail, replaced, or_itself, fill, repeated_members, unless_errors, substitute_as, substitute,
  apply_choices, gathered, select_members, resolve_workflow_members,
}
use agent_collab.Workflows.Choices.{
  IsUsable, gather-IsUsable, repeated_members-distinct_from, shaped_group-map, length-map,
  shaped_group_same, shaped_sequence-map,
}
use agent_collab.Workflows.Starting.{with_workflow, is_group, is_parallel}

module _ (config : CollaborationConfig) (allow : Bool) where
  check_members-with_workflow :
      (id : String) (w : WorkflowConfig) (ms : List String)
      → check_members (with_workflow config id w) allow ms ≡ check_members config allow ms
  unfolding check_members workflow_member_state
  check_members-with_workflow id w [] = refl
  check_members-with_workflow id w (m ∷ ms) = rw (check_members-with_workflow id w ms)

  or_itself-usable :
      (m : String) (o : Option String)
      → ((a : String) → o ≡ some a → workflow_member_state config a ≡ usable)
      → check_state allow (workflow_member_state config m) ≡ ok tt
      → check_state allow (workflow_member_state config (or_itself m o)) ≡ ok tt
  or_itself-usable m none u h = h
  or_itself-usable m (some a) u h = rw (u a refl)

  check_members-map :
      (mapping : Dict String) (ms : List String)
      → IsUsable config mapping
      → check_members config allow ms ≡ ok tt
      → check_members config allow (map (fill mapping) ms) ≡ ok tt
  unfolding check_members fill
  check_members-map mapping [] u h = refl
  check_members-map mapping (m ∷ ms) u h =
      let (t, first, rest) =
        >>=-eq-ok (check_state allow (workflow_member_state config m))
          (λ done. check_members config allow ms) h in
      rw (or_itself-usable m (get mapping m) (u m) first) (check_members-map mapping ms u rest)

-- What a substitution keeps: `ms` are the members before, `o` the parallel group.
KeepsShape : Dict String → (ms : List String) → Option (List String) → WorkflowConfig → Type 0
KeepsShape mapping ms o w =
    (shaped_members w ≡ ok (map (fill mapping) ms))
    × (workflow_members w ≡ map (fill mapping) ms)
    × (is_parallel w ≡ is_group o)

replaced_same : (u w : WorkflowConfig) → replaced u ≡ replaced w → u ≡ w
replaced_same u w h = cc

module _ (repr : String → String) (config : CollaborationConfig) (workflow_id : String) where
  unless_errors-replaced :
      (details : List Detail) (u w : WorkflowConfig)
      → unless_errors repr config workflow_id details u ≡ replaced w
      → (details ≡ []) × (u ≡ w)
  unless_errors-replaced [] u w h = (refl, cc)
  unless_errors-replaced (d ∷ ds) u w h = cc

  substitute_as-KeepsShape :
      (id : String) (s : List String) (o : Option (List String)) (mapping : Dict String)
      (ms : List String) (w : WorkflowConfig)
      → shaped_as s o ≡ ok ms
      → substitute_as repr config workflow_id id s o mapping ≡ replaced w
      → KeepsShape mapping ms o w
  unfolding substitute_as KeepsShape shaped_members workflow_members
  substitute_as-KeepsShape id s none mapping ms w h e =
      let (same, shaped) = shaped_sequence-map (fill mapping) s ms h in
      subst (KeepsShape mapping ms none) (replaced_same _ w e) (rw (sym same) (shaped, refl, refl))
  substitute_as-KeepsShape id s (some group) mapping ms w h e =
      let (unrepeated, eq) =
        unless_errors-replaced (repeated_members repr config workflow_id mapping [] group) _ w e in
      let distinct =
        repeated_members-distinct_from repr config workflow_id mapping [] [] group (λ a e. refl)
          unrepeated in
      let same = shaped_group_same s group ms h in
      let shaped = shaped_group-map (fill mapping) s group ms h distinct in
      subst (KeepsShape mapping ms (some group)) eq (rw (sym same) (shaped, refl, refl))

  apply_choices-replaced :
      (v w : WorkflowConfig) (errors : List Detail) (mapping : Dict String)
      → apply_choices repr config workflow_id v errors mapping ≡ replaced w
      → substitute repr config workflow_id v mapping ≡ replaced w
  apply_choices-replaced v w (d ∷ ds) mapping h = cc
  apply_choices-replaced v w [] mapping h = ground arith

  gathered-IsUsable :
      (v : WorkflowConfig) (fields : Fields)
      → IsUsable config (gathered repr config workflow_id v fields).mapping
  unfolding gathered get
  gathered-IsUsable v fields =
      gather-IsUsable repr config workflow_id _ _ fields (λ slot agent e. cc)

  -- A selection that replaces a workflow of the right shape.
  resolve-replaced :
      (v w : WorkflowConfig) (members : Value)
      → get config.workflows workflow_id ≡ some v
      → resolve_workflow_members repr config workflow_id members ≡ replaced w
      → (mapping : Dict String) × IsUsable config mapping
        × (substitute repr config workflow_id v mapping ≡ replaced w)
  unfolding resolve_workflow_members select_members
  resolve-replaced v w null h e = cc
  resolve-replaced v w (bool b) h e = cc
  resolve-replaced v w (int n) h e = cc
  resolve-replaced v w (float x) h e = cc
  resolve-replaced v w (str s) h e = cc
  resolve-replaced v w (arr vs) h e = cc
  resolve-replaced v w (obj end) h e = cc
  resolve-replaced v w (obj (field k x fs)) h e =
      let fields = field k x fs in
      let g = gathered repr config workflow_id v fields in
      let chosen = subst (λ o. select_members repr config workflow_id o fields ≡ replaced w) h e in
      (g.mapping, gathered-IsUsable v fields, apply_choices-replaced v w g.errors g.mapping chosen)

-- What a start keeps of the configured workflow `v`.
abbrev pub KeepsWorkflow :
    CollaborationConfig → (id : String) (allow : Bool) (v w : WorkflowConfig) → Type 0
KeepsWorkflow config id allow v w =
    (get config.workflows id ≡ some w)
    × (validate_workflow config id allow ≡ ok tt)
    × (length (workflow_members w) ≡ length (workflow_members v))
    × (is_parallel w ≡ is_parallel v)

shaped_as-members :
    (s : List String) (o : Option (List String)) (ms : List String)
    → shaped_as s o ≡ ok ms
    → members_as s o ≡ ms
shaped_as-members s none ms h = (shaped_sequence-map (λ m. m) s ms h).0
shaped_as-members s (some p) ms h = shaped_group_same s p ms h

-- A valid workflow's members.
validate_workflow-ok :
    (config : CollaborationConfig) (id : String) (allow : Bool) (v : WorkflowConfig)
    → get config.workflows id ≡ some v
    → validate_workflow config id allow ≡ ok tt
    → (shaped_members v ≡ ok (workflow_members v))
      × (check_members config allow (workflow_members v) ≡ ok tt)
unfolding validate_workflow workflow_members shaped_members
validate_workflow-ok config id allow v known h =
    let here =
      subst
        (λ o.
          (known_workflow o >>= (λ w. shaped_members w >>= (λ ms. check_members config allow ms)))
          ≡ ok tt)
        known h in
    let (ms, shaped, checked) = >>=-eq-ok (shaped_members v) (check_members config allow) here in
    rw (shaped_as-members v.sequence v.parallel ms shaped) (shaped, checked)

-- A workflow of the right shape with members that pass is valid in its place.
validate_workflow-put :
    (config : CollaborationConfig) (id : String) (allow : Bool) (w : WorkflowConfig)
    (ms : List String)
    → shaped_members w ≡ ok ms
    → check_members config allow ms ≡ ok tt
    → validate_workflow (with_workflow config id w) id allow ≡ ok tt
unfolding validate_workflow
validate_workflow-put config id allow w ms shaped checked =
    rw (get-put_own config.workflows id w, shaped)
      (check_members-with_workflow config allow id w ms ∙ checked)

-- A selection that replaces a valid workflow.
pub resolve-KeepsWorkflow :
    (repr : String → String) (config : CollaborationConfig) (id : String) (allow : Bool)
    (v w : WorkflowConfig) (members : Value)
    → get config.workflows id ≡ some v
    → validate_workflow config id allow ≡ ok tt
    → resolve_workflow_members repr config id members ≡ replaced w
    → KeepsWorkflow (with_workflow config id w) id allow v w
unfolding substitute KeepsShape shaped_members
resolve-KeepsWorkflow repr config id allow v w members known valid e =
    let (mapping, enabled, sub) = resolve-replaced repr config id v w members known e in
    let (shaped, checked) = validate_workflow-ok config id allow v known valid in
    let (keeps, same, kind) =
      substitute_as-KeepsShape repr config id v.id v.sequence v.parallel mapping
        (workflow_members v) w shaped sub in
    (
      get-put_own config.workflows id w,
      validate_workflow-put config id allow w _ keeps
          (check_members-map config allow mapping (workflow_members v) enabled checked),
      ap length same ∙ length-map (fill mapping) (workflow_members v),
      kind,
    )
