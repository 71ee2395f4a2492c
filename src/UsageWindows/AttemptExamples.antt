-- ===== src/UsageWindows/AttemptExamples.antt =====
-- An attempt of agent_collab/usage_windows.py and the plan after it, on a concrete schedule.
use agent_collab.Base.{value_error, String, true, false, some, Result, ok, err, ◌≡◌, refl}
use agent_collab.Base.Values.{int, pos, ℤ, Value, null, str}
use agent_collab.UsageWindows.{
  Zone, Moment, utc, at_instant, Schedule, WorkInterval, UsageWindowAnchor, day_length, minute,
}
use agent_collab.UsageWindows.Anchors.{candidate_anchors, current_work_interval, holds_instant}
use agent_collab.UsageWindows.Planning.{
  Action, wait, attempt, decide, ScheduleDecision, Entry, Planned,
}
use agent_collab.UsageWindows.Targets.{plan_target}
use agent_collab.UsageWindows.Bookkeeping.{mark_attempted, set_retry, begin_attempt, finish_attempt}
use agent_collab.UsageWindows.Bookkept.{nothing, finished, plan_target-begin_attempt}
use agent_collab.Base.Dict.{put}
use agent_collab.UsageWindows.Attempts.{is_attempt}
use agent_collab.UsageWindows.Examples.{
  tuesdays, on_tuesday, text_of, moment_of, late, planned_entry, attempt_now,
}

abbrev int_only : Value → Result ℤ
int_only (int n) = ok n
int_only v = err value_error

abbrev text_after : Moment → Value → String
text_after m v = text_of m

-- The attempt of the anchor at 14:00 begins, and ends without a retry delay.
abbrev begun_entry : Entry
begun_entry =
    mark_attempted text_of moment_of planned_entry (text_of (on_tuesday 840)) "uw" (on_tuesday 838)
      false

abbrev finished_entry : Entry
finished_entry =
    set_retry text_of moment_of int_only text_after
      (put
        (put (put (put begun_entry "last_outcome" (str "completed")) "last_session_id" (str "uw"))
          "last_success_at" (str (text_of (on_tuesday 839))))
        "consecutive_failures" (int (pos 0)))
      (on_tuesday 839) null

abbrev planned_of : Result Planned → Planned
planned_of (err raised) = attempt_now
planned_of (ok planned) = planned

plan_target-begin_attempt_example :
    is_attempt
      (planned_of (
        plan_target text_of moment_of late tuesdays
          (on_tuesday 839)
          (some finished_entry)
          true)).0.action
    ≡ false
unfolding agent_collab.UsageWindows.Planning.look begin_attempt finish_attempt plan_target
    candidate_anchors current_work_interval holds_instant
plan_target-begin_attempt_example =
    plan_target-begin_attempt text_of moment_of late tuesdays (on_tuesday 839) int_only text_after
      planned_entry begun_entry finished_entry (text_of (on_tuesday 840)) "uw" (on_tuesday 838)
      false true
      (planned_of
        (plan_target text_of moment_of late tuesdays (on_tuesday 839) (some finished_entry) true))
      refl refl (finished "completed" "uw" (on_tuesday 839) null (nothing begun_entry) refl) refl
