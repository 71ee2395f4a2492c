-- ===== src/Workflows/Starts.antt =====
-- What a start that is not refused keeps of the configured workflow.
use agent_collab.Base.{
  String, Bool, false, ◌&&◌, ◌||◌, some, List, [], ◌∷◌, ◌++◌, if◌then◌else◌, ◌≡◌, refl, arith, inl,
  inr, ok, Bool-cases, subst,
}
use agent_collab.Base.Dict.{get}
use agent_collab.Base.Values.{is_true}
use agent_collab.Workflows.{WorkflowConfig, CollaborationConfig, validate_workflow}
use agent_collab.Workflows.Selection.{
  Detail, MemberSelection, rejected, unchanged, replaced, resolve_workflow_members,
}
use agent_collab.Workflows.Starting.{
  StartRequest, Started, started, with_workflow, lacks_turns, is_parallel, interactive_error,
  turns_error, refuse_or, check_parallel, fold_selection, start_known, start_workflow,
}
use agent_collab.Workflows.Effective.{KeepsWorkflow, resolve-KeepsWorkflow}

-- A parallel workflow starts without interaction and with a turn at least.
abbrev pub SuitsKind : StartRequest → WorkflowConfig → Type 0
SuitsKind request w =
    (is_parallel w && (request.interactive || lacks_turns request.max_turns)) ≡ false

module _ (repr : String → String) (available : String) (request : StartRequest) where
  started_same :
      (c d : CollaborationConfig) (u w : WorkflowConfig)
      → started c u ≡ started d w
      → (c ≡ d) × (u ≡ w)
  started_same c d u w h = (cc, cc)

  errors-none :
      interactive_error repr available request ++ turns_error repr available request ≡ []
      → (request.interactive ≡ false) × (lacks_turns request.max_turns ≡ false)
  errors-none h = ground arith

  errors-SuitsKind :
      (w : WorkflowConfig)
      → interactive_error repr available request ++ turns_error repr available request ≡ []
      → SuitsKind request w
  errors-SuitsKind w h = ground (arith, errors-none h)

  single-SuitsKind : (w : WorkflowConfig) → is_parallel w ≡ false → SuitsKind request w
  single-SuitsKind w h = ground arith

  refuse_or-started :
      (details : List Detail) (s : Started) (d : CollaborationConfig) (w : WorkflowConfig)
      → refuse_or repr available details s ≡ started d w
      → (details ≡ []) × (s ≡ started d w)
  refuse_or-started [] s d w h = (refl, h)
  refuse_or-started (x ∷ xs) s d w h = cc

  check_parallel-started :
      (c d : CollaborationConfig) (u w : WorkflowConfig)
      → check_parallel repr available c u request ≡ started d w
      → (c ≡ d) × (u ≡ w) × SuitsKind request u
  unfolding check_parallel
  check_parallel-started c d u w h =
      let outcome : Bool → Started = λ b.
        if b
        then refuse_or repr available
            (interactive_error repr available request ++ turns_error repr available request)
            (started c u)
        else started c u in
      elim (Bool-cases (is_parallel u)) [
        | inl parallel ↦
            let (clear, same) =
              refuse_or-started _ (started c u) d w
                (subst (λ b. outcome b ≡ started d w) parallel h) in
            let (e, f) = started_same c d u w same in (e, f, errors-SuitsKind u clear)
        | inr single ↦
            let (e, f) = started_same c d u w (subst (λ b. outcome b ≡ started d w) single h) in
            (e, f, single-SuitsKind u single)
      ]

  Outcome :
      (allow : Bool) (v : WorkflowConfig) (d : CollaborationConfig) (w : WorkflowConfig) → Type 0
  Outcome allow v d w = KeepsWorkflow d request.workflow allow v w × SuitsKind request w

  checked-Outcome :
      (allow : Bool) (c d : CollaborationConfig) (v u w : WorkflowConfig)
      → KeepsWorkflow c request.workflow allow v u
      → check_parallel repr available c u request ≡ started d w
      → Outcome allow v d w
  unfolding Outcome
  checked-Outcome allow c d v u w keeps h =
      let (e, f, suits) = check_parallel-started c d u w h in
      subst (λ x. KeepsWorkflow x request.workflow allow v w × SuitsKind request w) e
        (subst (λ x. KeepsWorkflow c request.workflow allow v x × SuitsKind request x) f
          (keeps, suits))

  module _ (config : CollaborationConfig) (allow : Bool) (v : WorkflowConfig)
      (known : get config.workflows request.workflow ≡ some v)
      (valid : validate_workflow config request.workflow allow ≡ ok tt) where
    fold_selection-Outcome :
        (selection : MemberSelection)
        → resolve_workflow_members repr config request.workflow request.members ≡ selection
        → (d : CollaborationConfig) (w : WorkflowConfig)
        → fold_selection repr available config v request selection ≡ started d w
        → Outcome allow v d w
    fold_selection-Outcome (rejected details) e d w h = cc
    fold_selection-Outcome unchanged e d w h =
        checked-Outcome allow config d v v w (known, valid, refl, refl) h
    fold_selection-Outcome (replaced u) e d w h =
        let keeps =
          resolve-KeepsWorkflow repr config request.workflow allow v u request.members known valid
            e in
        checked-Outcome allow (with_workflow config request.workflow u) d v u w keeps h

    -- Let the request's workflow be configured as `v` and valid, with or without disabled agents. If the
    -- start is not refused, its configuration holds the returned workflow `w` under the same id, where it
    -- is valid too; `w` has as many members as `v` and is parallel exactly if `v` is; and a parallel `w`
    -- starts without interaction and with max_turns at least 1.
    pub start_workflow-valid :
        (d : CollaborationConfig) (w : WorkflowConfig)
        → start_workflow repr available config request ≡ started d w
        → KeepsWorkflow d request.workflow allow v w × SuitsKind request w
    unfolding start_workflow Outcome
    start_workflow-valid d w h =
        let h2 = subst (λ o. start_known repr available config request o ≡ started d w) known h in
        let outcome : Bool → Started = λ b.
          if b
          then fold_selection repr available config v request
              (resolve_workflow_members repr config request.workflow request.members)
          else check_parallel repr available config v request in
        elim (Bool-cases (is_true request.members)) [
          | inl given ↦
              fold_selection-Outcome _ refl d w (subst (λ b. outcome b ≡ started d w) given h2)
          | inr absent ↦
              checked-Outcome allow config d v v w (known, valid, refl, refl)
                (subst (λ b. outcome b ≡ started d w) absent h2)
        ]
