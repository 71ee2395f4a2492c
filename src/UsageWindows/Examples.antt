-- ===== src/UsageWindows/Examples.antt =====
-- Plans of agent_collab/usage_windows.py on concrete schedules.
use agent_collab.Base.{
  value_error, all, ℕ, suc, ◌+◌, ◌-◌, ◌*◌, String, Bool, true, false, Option, none, some, List, [],
  ◌∷◌, Result, ok, err, ◌≡◌, refl,
}
use agent_collab.Base.Text.{decimal, to_number}
use agent_collab.Base.Values.{int, pos, ℤ, Value, null, bool, str}
use agent_collab.UsageWindows.{
  Zone, Moment, utc, at_instant, Schedule, WorkInterval, UsageWindowAnchor, day_length, minute,
}
use agent_collab.UsageWindows.Anchors.{candidate_anchors, current_work_interval, holds_instant}
use agent_collab.UsageWindows.Planning.{
  Action, wait, attempt, decide, ScheduleDecision, Entry, Planned,
}
use agent_collab.UsageWindows.Targets.{plan_target}
use agent_collab.Base.Decimal.{to_number-decimal}
use native.Mathlib.Omega.{arith}
use agent_collab.UsageWindows.Candidates.{is_inside, is_sorted, candidate_anchors-inside}
use agent_collab.UsageWindows.Waiting.{plan_target-again}
use agent_collab.UsageWindows.Attempts.{IsSafePlan, plan_target-IsSafePlan}

abbrev pub universal : Zone
universal = record { name = "UTC"; utc_of = λ wall fold. wall; wall_of = λ t. (t, false) }

-- An anchor at 9:00 and one at 14:00 of every Tuesday.
abbrev pub tuesdays : Schedule
tuesdays = record {
  fingerprint = "f";
  days = "tue" ∷ [];
  start = 540 * minute;
  end = 1020 * minute;
  interval = 300 * minute;
  jitter = 5 * minute;
  zone = universal;
}

abbrev pub on_tuesday : (minutes : ℕ) → Moment
on_tuesday minutes = record {
  wall = 15 * day_length + minutes * minute;
  fold = false;
  zone = universal;
}

abbrev pub text_of : Moment → String
text_of m = decimal (utc m)

abbrev pub moment_of : String → Option Moment
moment_of t = some (at_instant universal (to_number 0 t))

abbrev pub middle : (round span : ℕ) → ℕ
middle round span = 60000000

abbrev decision_of : Result Planned → Option (Action × Option Moment × Bool × ℕ)
decision_of (err raised) = none
decision_of (ok (d, state)) = some (d.action, d.planned_at, d.catch_up, d.skipped)

abbrev state_of : Result Planned → Entry
state_of (err raised) = []
state_of (ok (d, state)) = state

test_first :
    decision_of (plan_target text_of moment_of middle tuesdays (on_tuesday 480) none false)
    ≡ some (wait, some (on_tuesday 541), false, 0)
unfolding plan_target candidate_anchors current_work_interval holds_instant
test_first = refl

-- The plan of the anchor at 14:00, for three minutes before it.
abbrev pub planned_entry : Entry
planned_entry =
    ("schedule_fingerprint", str "f")
    ∷ ("anchor", str (text_of (on_tuesday 840)))
    ∷ ("planned_at", str (text_of (on_tuesday 837)))
    ∷ ("attempted_anchor", null)
    ∷ ("catch_up", bool false)
    ∷ []

abbrev work_day : WorkInterval
work_day = record { local_day = 15; start = on_tuesday 540; end = on_tuesday 1020 }

abbrev afternoon : UsageWindowAnchor
afternoon = record { base = on_tuesday 840; window = work_day }

abbrev pub attempt_now : Planned
attempt_now = (
  record {
    action = attempt;
    anchor = some afternoon;
    planned_at = some (on_tuesday 837);
    catch_up = false;
    skipped = 0;
  },
  planned_entry,
)

plan_target-IsSafePlan_example :
    IsSafePlan text_of moment_of middle tuesdays (on_tuesday 838) planned_entry true attempt_now.0
unfolding plan_target candidate_anchors current_work_interval holds_instant to_number decimal
    agent_collab.Base.Values.is_true
plan_target-IsSafePlan_example =
    plan_target-IsSafePlan text_of moment_of middle tuesdays (on_tuesday 838) (some planned_entry)
      true attempt_now refl

-- Twenty minutes late, the anchor is caught up.
test_catch_up :
    decision_of
      (plan_target text_of moment_of middle tuesdays (on_tuesday 860) (some planned_entry) true)
    ≡ some (wait, some (on_tuesday 861), true, 0)
unfolding plan_target candidate_anchors current_work_interval holds_instant to_number decimal
    agent_collab.Base.Values.is_true
test_catch_up = refl

-- An anchor that was attempted before its base is planned again, and waits in vain.
abbrev pub late : (round span : ℕ) → ℕ
late round span = 5 * minute

abbrev attempted_entry : Entry
attempted_entry =
    ("schedule_fingerprint", str "f")
    ∷ ("anchor", str (text_of (on_tuesday 840)))
    ∷ ("planned_at", str (text_of (on_tuesday 837)))
    ∷ ("attempted_anchor", str (text_of (on_tuesday 840)))
    ∷ ("catch_up", bool false)
    ∷ []

test_planned_again :
    decision_of
      (plan_target text_of moment_of late tuesdays (on_tuesday 838) (some attempted_entry) true)
    ≡ some (wait, some (on_tuesday 840), false, 0)
unfolding plan_target candidate_anchors current_work_interval holds_instant to_number decimal
test_planned_again = refl

reads_back : (m : Moment) → (n : Moment) × (moment_of (text_of m) ≡ some n) × (utc n ≡ utc m)
unfolding utc at_instant
reads_back m =
    (at_instant universal (to_number 0 (decimal (utc m))), refl, to_number-decimal (utc m))

abbrev morning : UsageWindowAnchor
morning = record { base = on_tuesday 540; window = work_day }

abbrev first_wait : ScheduleDecision
first_wait = record {
  action = wait;
  anchor = some morning;
  planned_at = some (on_tuesday 541);
  catch_up = false;
  skipped = 0;
}

abbrev first_plan : Planned
first_plan = (
  first_wait,
  state_of (plan_target text_of moment_of middle tuesdays (on_tuesday 480) none false),
)

abbrev anchors_of : Result (List UsageWindowAnchor) → List UsageWindowAnchor
anchors_of (err raised) = []
anchors_of (ok anchors) = anchors

plan_target-again_example :
    (m : UsageWindowAnchor) × (q : Moment) × (plan_target text_of moment_of late tuesdays
        (on_tuesday 500)
        (some first_plan.1)
        true
      ≡ ok (decide wait m q false 0, first_plan.1))
    × (utc m.base ≡ utc (on_tuesday 540))
    × (utc q ≡ utc (on_tuesday 541))
unfolding plan_target candidate_anchors current_work_interval holds_instant
plan_target-again_example =
    plan_target-again text_of moment_of tuesdays reads_back middle late (on_tuesday 480)
      (on_tuesday 500) none false first_plan morning (on_tuesday 541) refl refl refl refl refl
      (anchors_of (candidate_anchors tuesdays (on_tuesday 500))) none refl refl
      (morning, refl, refl) (omega arith)

candidate_anchors-inside_example :
    (all is_inside (anchors_of (candidate_anchors tuesdays (on_tuesday 500))) ≡ true)
    × (is_sorted (anchors_of (candidate_anchors tuesdays (on_tuesday 500))) ≡ true)
unfolding candidate_anchors
candidate_anchors-inside_example =
    candidate_anchors-inside tuesdays (on_tuesday 500)
      (anchors_of (candidate_anchors tuesdays (on_tuesday 500))) refl
