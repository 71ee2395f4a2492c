-- ===== src/Referee/ParallelExamples.antt =====
-- The theorem on parallel stages, at two members whose turns overlap.
use agent_collab.Base.{
  ℕ, String, ◌≡◌, refl, Bool, true, false, Option, none, some, List, [], ◌∷◌, All, any,
  if◌then◌else◌, arith,
}
use agent_collab.Base.Text.{is_ascii_digit}
use agent_collab.Base.Dict.{get}
use agent_collab.Sessions.Examples.{message}
use agent_collab.Sessions.{World}
use agent_collab.Sessions.Failing.{IsFailed}
use agent_collab.Referee.Arbitration.{returned, runner_raised}
use agent_collab.Referee.Progress.{fresh, Run, going, halted, parallel_failed, state}
use agent_collab.Referee.Logging.{no_turns-IsQuiet}
use agent_collab.Referee.Invariant.{IsSteady}
use agent_collab.Referee.Parallel.{
  MemberStep, starts, says, ends, Stage, open_stage, run_members, run_parallel_stage,
}
use agent_collab.Referee.Members.{IsCalm}
use agent_collab.Base.{◌⊎◌, Error, ok}
use agent_collab.Outcomes.Records.{SessionFailure}
use agent_collab.Sessions.Ending.{stage_failure, finish_run}
use agent_collab.Sessions.Examples.{session}
use agent_collab.Referee.Interaction.{emit_final_summary}
use agent_collab.Referee.Progress.{Progress}
use agent_collab.Referee.Endings.{end_of}
use agent_collab.Referee.Joined.{open_parallel, run_parallel, finish_run-run_parallel}
use agent_collab.Referee.Acceptance.{is_over}
use agent_collab.Referee.Reviews.{is_reviewed, run_parallel_stage-is_reviewed}
use agent_collab.Referee.Examples.{
  as_is, well_done, wake_of, returned_sound, raised_sound, setup, alice, bob, ascii_digits, members,
}

-- bob speaks and completes; alice's runner raises.
abbrev steps : List MemberStep
steps =
    starts "alice"
    ∷ starts "bob"
    ∷ says "bob" message
    ∷ ends "alice" (wake_of runner_raised) false "10:01"
    ∷ ends "bob" (wake_of (returned well_done)) false "10:02"
    ∷ []

fresh-IsSteady : IsSteady is_ascii_digit 0 fresh
fresh-IsSteady = record {
  numbered = tt;
  next = refl;
  made = tt;
  counted = tt;
  idle = refl;
  queue = omega arith;
  quiet = no_turns-IsQuiet;
}

calm : All (IsCalm setup) steps
calm = (tt, (tt, (tt, ((alice, raised_sound, refl), ((bob, returned_sound, refl), tt)))))

abbrev stage : Stage
stage =
    run_members is_ascii_digit setup 1
      (open_stage is_ascii_digit setup 1 as_is "fix it" fresh members) steps

over : All (λ a. is_over (get stage.phases a) ≡ true) members
unfolding get run_members open_stage agent_collab.Outcomes.Turn.make_outcome
    agent_collab.Outcomes.Fields.parse_kind agent_collab.Outcomes.Codes.kind_of_name
    agent_collab.Outcomes.Fields.canonical_message agent_collab.Outcomes.Codes.message_of_code
    agent_collab.Outcomes.Fields.check_message agent_collab.Outcomes.Fields.safe_stop_reason
    agent_collab.Outcomes.Fields.safe_retry_after agent_collab.Outcomes.Turn.check_code
    agent_collab.Base.Text.decimal is_ascii_digit agent_collab.Outcomes.Codes.is_backend
    agent_collab.Referee.Arbitration.unexpected_cancel
over = (refl, (refl, tt))

abbrev run : Run
run = run_parallel_stage is_ascii_digit setup 1 as_is "fix it" false "10:03" fresh members steps

run_parallel_stage-is_reviewed_example : run ≡ (
    if any (is_reviewed fresh (state run)) members
    then going (state run)
    else halted (state run) (parallel_failed 1))
run_parallel_stage-is_reviewed_example =
    run_parallel_stage-is_reviewed is_ascii_digit ascii_digits setup 1 as_is "fix it" 0 "10:03"
      fresh members steps (omega arith) fresh-IsSteady calm over

abbrev begun : Progress
begun = open_parallel as_is is_ascii_digit setup "fix it" members "10:00" "workflow"

abbrev first_stage : Run
first_stage =
    run_parallel_stage is_ascii_digit setup 1 as_is "fix it" false "10:00" begun members steps

abbrev joined_run : Run
joined_run =
    run_parallel as_is is_ascii_digit setup "fix it" members false "10:00" "workflow" "logs" steps

all_over :
    All
      (λ a.
        is_over (
          get
            (run_members is_ascii_digit setup 1
              (open_stage is_ascii_digit setup 1 as_is "fix it" begun members)
              steps).phases
            a)
        ≡ true)
      members
unfolding get run_members open_stage agent_collab.Outcomes.Turn.make_outcome
    agent_collab.Outcomes.Fields.parse_kind agent_collab.Outcomes.Codes.kind_of_name
    agent_collab.Outcomes.Fields.canonical_message agent_collab.Outcomes.Codes.message_of_code
    agent_collab.Outcomes.Fields.check_message agent_collab.Outcomes.Fields.safe_stop_reason
    agent_collab.Outcomes.Fields.safe_retry_after agent_collab.Outcomes.Turn.check_code
    agent_collab.Base.Text.decimal open_parallel is_ascii_digit
    agent_collab.Outcomes.Codes.is_backend agent_collab.Referee.Arbitration.unexpected_cancel
all_over = (refl, (refl, tt))

abbrev class_name : Error → String
class_name e = "RuntimeError"

finish_run-run_parallel_example :
    ((any (is_reviewed begun (state first_stage)) members ≡ true)
      × (joined_run
          ≡ going (
              emit_final_summary as_is is_ascii_digit setup "fix it" members "10:00" "logs" 1
                (state first_stage))))
    ⊎ ((any (is_reviewed begun (state first_stage)) members ≡ false)
        × ((f : SessionFailure) × (v : World) × (stage_failure is_ascii_digit 1 ≡ ok f)
            × (finish_run is_ascii_digit true "10:00" session
                  (end_of class_name "a.jsonl" "a.md" joined_run)
                ≡ ok v)
            × IsFailed "10:00" f v))
finish_run-run_parallel_example =
    finish_run-run_parallel as_is is_ascii_digit ascii_digits setup "fix it" members true "10:00"
      "workflow" "logs" session class_name "a.jsonl" "a.md" steps refl calm all_over
