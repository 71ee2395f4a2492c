-- ===== src/Workflows/Merging.antt =====
-- What merging a workflow's table leaves.
use agent_collab.Base.{
  String, Bool, true, not, ◌&&◌, ◌||◌, Option, List, length, ◌≡◌, refl, arith, Result, ok, err,
  require, subst, config_error, >>=-eq-ok, ◌>>=◌, ◌=?◌,
}
use agent_collab.Base.Values.{Value, Fields, end, field}
use agent_collab.Workflows.{
  WorkflowConfig, expect_str_list, as_sequence, as_parallel, merge_field, merge_fields, has_key,
  existing_or, merge_workflow,
}
use agent_collab.Workflows.Starting.{is_parallel}

-- A sequence or a parallel group, not both.
abbrev pub is_exclusive : WorkflowConfig → Bool
is_exclusive w = not (is_parallel w) || (length w.sequence =? 0)

abbrev exclusive_result : Result WorkflowConfig → Bool
exclusive_result (err raised) = true
exclusive_result (ok w) = is_exclusive w

as_sequence-exclusive :
    (w v : WorkflowConfig) (read : Result (List String))
    → (read >>= as_sequence w) ≡ ok v
    → is_exclusive v ≡ true
as_sequence-exclusive w v (err raised) h = cc
as_sequence-exclusive w v (ok members) h = subst (λ r. exclusive_result r ≡ true) h refl

as_parallel-exclusive :
    (w v : WorkflowConfig) (read : Result (List String))
    → (read >>= as_parallel w) ≡ ok v
    → is_exclusive v ≡ true
as_parallel-exclusive w v (err raised) h = cc
as_parallel-exclusive w v (ok members) h = subst (λ r. exclusive_result r ≡ true) h refl

merge_field-exclusive :
    (w : WorkflowConfig) (key : String) (value : Value) (v : WorkflowConfig)
    → merge_field w key value ≡ ok v
    → is_exclusive v ≡ true
unfolding merge_field
merge_field-exclusive w key value v h =
    let read = expect_str_list value in
    ground (arith, as_sequence-exclusive w v read, as_parallel-exclusive w v read)

merge_fields-exclusive :
    (w : WorkflowConfig) (values : Fields) (v : WorkflowConfig)
    → is_exclusive w ≡ true
    → merge_fields w values ≡ ok v
    → is_exclusive v ≡ true
unfolding merge_fields
merge_fields-exclusive w end v h e = subst (λ r. exclusive_result r ≡ true) e h
merge_fields-exclusive w (field key value rest) v h e =
    let (u, first, more) = >>=-eq-ok (merge_field w key value) (λ u. merge_fields u rest) e in
    merge_fields-exclusive u rest v (merge_field-exclusive w key value u first) more

-- If the workflow to merge into, or the empty one where there is none, is not parallel or has no sequence,
-- then so is the result of merging any table of fields into it, where the merge raises nothing.
pub merge_workflow-exclusive :
    (existing : Option WorkflowConfig) (id : String) (values : Fields) (v : WorkflowConfig)
    → is_exclusive (existing_or existing id) ≡ true
    → merge_workflow existing id values ≡ ok v
    → is_exclusive v ≡ true
unfolding merge_workflow
merge_workflow-exclusive existing id values v h e =
    let (t, first, more) =
      >>=-eq-ok
        (require (not (has_key values "sequence" && has_key values "parallel")) config_error)
        (λ t. merge_fields (existing_or existing id) values) e in
    merge_fields-exclusive (existing_or existing id) values v h more
