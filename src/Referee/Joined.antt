-- ===== src/Referee/Joined.antt =====
-- A run of a parallel workflow, whose one stage has several members: `_run_stages` of
-- agent_collab/referee.py around `_run_parallel_stage`, and what its session makes of it.
use Prim.Native.Char.{Char, code}
use Prim.Native.String.{◌++◌ as ◌<>◌}
use agent_collab.Base.{
  String, ◌≡◌, refl, ap, ◌∙◌, Bool, true, false, ◌&&◌, ◌⊎◌, inl, inr, none, List, [], ◌∷◌, All, any,
  leb, arith, if◌then◌else◌, Error, ok, Bool-cases,
}
use agent_collab.Base.Dict.{get}
use agent_collab.Base.Values.{null, str, obj, end, field}
use agent_collab.Outcomes.Records.{SessionFailure}
use agent_collab.Sessions.{failed, is_live, World}
use agent_collab.Sessions.Lifecycle.{failure, set_status}
use agent_collab.Sessions.Failing.{IsFailed, set_status-IsFailed}
use agent_collab.Sessions.Ending.{stage_failure, publish_failure, finish_run}
use agent_collab.Referee.Progress.{
  Progress, fresh, Run, going, halted, parallel_failed, and_then, state, Setup, log_event,
}
use agent_collab.Referee.Interaction.{emit_final_summary}
use agent_collab.Referee.Logging.{null_unmarked}
use agent_collab.Referee.Invariant.{IsSteady}
use agent_collab.Referee.Asides.{log_status-IsSteady}
use agent_collab.Referee.Runs.{opened, told-IsSteady}
use agent_collab.Referee.Parallel.{MemberStep, open_stage, run_members, run_parallel_stage}
use agent_collab.Referee.Members.{IsCalm}
use agent_collab.Referee.Acceptance.{is_over}
use agent_collab.Referee.Reviews.{is_reviewed, run_parallel_stage-is_reviewed}
use agent_collab.Referee.Endings.{end_of}

-- ", ".join(names)
unfoldable pub join_names : List String → String
join_names [] = ""
join_names (n ∷ []) = n
join_names (n ∷ m ∷ rest) = let others = join_names (m ∷ rest) in n <> (", " <> others)

module _ (upper : String → String) (is_digit : Char → Bool) (setup : Setup) (task : String)
    (members : List String) where
  -- What a parallel run logs before its stage.
  unfoldable pub open_parallel : (now workflow : String) → Progress
  unfolding log_event join_names
  open_parallel now workflow =
      let told =
        log_event fresh now "human" "message" task (obj (field "task" (str task) end)) none in
      let opened_ = log_event told now "referee" "status" workflow null none in
      log_event opened_ now "referee" "status" ("stage 1 (parallel): " <> join_names members) null
        none

  -- _run_stages of a workflow with one parallel stage
  unfoldable pub run_parallel :
      (stopped : Bool) (now workflow logs : String) → List MemberStep → Run
  unfolding open_parallel run_parallel_stage emit_final_summary
  run_parallel stopped now workflow logs steps =
      and_then
        (run_parallel_stage is_digit setup 1 upper task stopped now (open_parallel now workflow)
          members steps)
        (λ p. going (emit_final_summary upper is_digit setup task members now logs 1 p))

chosen_if : (b c : Bool) (x y : Run) → b ≡ c → (if b then x else y) ≡ (if c then x else y)
chosen_if b c x y e = ap (λ t. if t then x else y) e

-- The failure of the one stage can be made.
stage_failure_made :
    (is_digit : Char → Bool) → (f : SessionFailure) × (stage_failure is_digit 1 ≡ ok f)
unfolding agent_collab.Outcomes.Records.make_failure agent_collab.Outcomes.Codes.message_of_code
    agent_collab.Outcomes.Fields.check_message agent_collab.Outcomes.Fields.safe_stop_reason
    agent_collab.Outcomes.Fields.safe_retry_after
stage_failure_made is_digit = (_, refl)

module _ (upper : String → String) (is_digit : Char → Bool)
    (ascii : (c : Char) → (leb 48 (code c) && leb (code c) 57) ≡ true → is_digit c ≡ true)
    (setup : Setup) (task : String) (members : List String) where
  open_parallel-IsSteady :
      (now workflow : String)
      → IsSteady is_digit 0 (open_parallel upper is_digit setup task members now workflow)
  unfolding open_parallel log_event
  open_parallel-IsSteady now workflow =
      log_status-IsSteady is_digit 0
        (opened upper is_digit ascii setup task members false now workflow) false now "referee" _
        null none null_unmarked (told-IsSteady upper is_digit ascii setup task members now workflow)

  joined :
      (now workflow logs : String) (steps : List MemberStep) (r : Run)
      → run_parallel_stage is_digit setup 1 upper task false now
          (open_parallel upper is_digit setup task members now workflow)
          members
          steps
        ≡ r
      → run_parallel upper is_digit setup task members false now workflow logs steps
        ≡ and_then r
            (λ p. going (emit_final_summary upper is_digit setup task members now logs 1 p))
  unfolding run_parallel
  joined now workflow logs steps r e =
      ap
        (λ r.
          and_then r
            (λ p. going (emit_final_summary upper is_digit setup task members now logs 1 p)))
        e

  failed_stage :
      (disk : Bool) (now : String) (w : World) (name_of : Error → String) (jsonl markdown : String)
      (p : Progress) (f : SessionFailure)
      → stage_failure is_digit 1 ≡ ok f
      → finish_run is_digit disk now w
          (end_of name_of jsonl markdown (halted p (parallel_failed 1)))
        ≡ ok (set_status disk now w failed (failure f)).0
  unfolding finish_run publish_failure end_of
  failed_stage disk now w name_of jsonl markdown p f made = rw made refl

  -- If the agents are valid, the ASCII digits count as digits, the runners return canonical outcomes, no
  -- stop is registered and the turn of every member ends, then however the turns overlap: either the log
  -- and turns show a member with a completed turn and a message, and the run ends with its final summary,
  -- or they show none, and the session, which is live, ends now as failed, with the failure of a stage
  -- without accepted members, and its message as the error.
  pub finish_run-run_parallel :
      (disk : Bool) (now workflow logs : String) (w : World) (name_of : Error → String)
      (jsonl markdown : String) (steps : List MemberStep)
      → is_live w.state.status ≡ true
      → All (IsCalm setup) steps
      → All
          (λ a.
            is_over (
              get
                (run_members is_digit setup 1
                  (open_stage is_digit setup 1 upper task
                    (open_parallel upper is_digit setup task members now workflow)
                    members)
                  steps).phases
                a)
            ≡ true)
          members
      → ((any
              (is_reviewed (open_parallel upper is_digit setup task members now workflow) (
                state (
                  run_parallel_stage is_digit setup 1 upper task false now
                    (open_parallel upper is_digit setup task members now workflow)
                    members
                    steps)))
              members
            ≡ true)
          × (run_parallel upper is_digit setup task members false now workflow logs steps
              ≡ going (
                  emit_final_summary upper is_digit setup task members now logs 1 (
                    state (
                      run_parallel_stage is_digit setup 1 upper task false now
                        (open_parallel upper is_digit setup task members now workflow)
                        members
                        steps)))))
        ⊎ ((any
                (is_reviewed (open_parallel upper is_digit setup task members now workflow) (
                  state (
                    run_parallel_stage is_digit setup 1 upper task false now
                      (open_parallel upper is_digit setup task members now workflow)
                      members
                      steps)))
                members
              ≡ false)
            × ((f : SessionFailure) × (v : World) × (stage_failure is_digit 1 ≡ ok f)
                × (finish_run is_digit disk now w (
                      end_of name_of jsonl markdown (
                        run_parallel upper is_digit setup task members false now workflow logs
                          steps))
                    ≡ ok v)
                × IsFailed now f v))
  finish_run-run_parallel disk now workflow logs w name_of jsonl markdown steps live calm over =
      let p = open_parallel upper is_digit setup task members now workflow in
      let stage = run_parallel_stage is_digit setup 1 upper task false now p members steps in
      let judged : stage ≡ (
          if any (is_reviewed p (state stage)) members
          then going (state stage)
          else halted (state stage) (parallel_failed 1)) =
        run_parallel_stage-is_reviewed is_digit ascii setup 1 upper task 0 now p members steps
          (omega arith) (open_parallel-IsSteady now workflow) calm over in
      elim (Bool-cases (any (is_reviewed p (state stage)) members)) [
        | inl e ↦ inl (e, joined now workflow logs steps _ (judged ∙ chosen_if _ true _ _ e))
        | inr e ↦
            let (f, made) = stage_failure_made is_digit in
            inr (
              e,
              (
                f,
                (set_status disk now w failed (failure f)).0,
                made,
                ap (λ r. finish_run is_digit disk now w (end_of name_of jsonl markdown r))
                      (joined now workflow logs steps _ (judged ∙ chosen_if _ false _ _ e))
                    ∙ failed_stage disk now w name_of jsonl markdown (state stage) f made,
                set_status-IsFailed disk now w f live,
              ),
            )
      ]
