-- ===== src/UsageWindows/Timely.antt =====
-- When a plan of agent_collab/usage_windows.py waits and when it attempts.
use agent_collab.Base.{
  ℕ, suc, ◌-◌, max, String, Bool, true, false, Option, none, some, List, [], ◌∷◌, length,
  if◌then◌else◌, ltb, leb, ◌≡◌, refl, sym, arith,
}
use agent_collab.UsageWindows.{Moment, utc, Schedule, WorkInterval, UsageWindowAnchor}
use agent_collab.UsageWindows.Planning.{
  Action, wait, attempt, idle, ScheduleDecision, Entry, decide, Resumed, settled, expired,
}
use agent_collab.UsageWindows.Futures.{
  Future, skip_one, next_future_jittered_plan, plan_future, plan_anew, plan_next,
}
use agent_collab.UsageWindows.Targets.{
  due_anchors, catch_up_time, catch_up_action, catch_up_latest, run_due, resume_due, resume_in,
  resume_plan, resume_matching, resume_parsed, resume, plan_resumed, plan_on,
}

-- A decision to wait is for a time to come, one to attempt for a time that has come; both have an
-- anchor.
abbrev pub is_timely_as : (instant : ℕ) → Action → Option UsageWindowAnchor → Option Moment → Bool
is_timely_as instant wait (some a) (some planned) = ltb instant (utc planned)
is_timely_as instant attempt (some a) (some planned) = leb (utc planned) instant
is_timely_as instant idle none none = true
is_timely_as instant action anchor planned = false

abbrev pub is_timely : (instant : ℕ) → ScheduleDecision → Bool
is_timely instant d = is_timely_as instant d.action d.anchor d.planned_at

abbrev pub is_future : (instant : ℕ) → Future → Bool
is_future instant (none, skipped) = true
is_future instant (some (a, planned), skipped) = ltb instant (utc planned)

abbrev pub is_timely_resumed : (instant : ℕ) → Resumed → Bool
is_timely_resumed instant (settled planned) = is_timely instant planned.0
is_timely_resumed instant (expired skipped) = true

skip_one-is_future : (t : ℕ) (f : Future) → is_future t (skip_one f) ≡ is_future t f
skip_one-is_future t (none, skipped) = refl
skip_one-is_future t (some (a, planned), skipped) = refl

module _ (iso : Moment → String) (uniform : (round span : ℕ) → ℕ) (s : Schedule)
    (now : Moment) where
  next_future_jittered_plan-is_future :
      (unopened : Bool) (round : ℕ) (anchors : List UsageWindowAnchor)
      → is_future (utc now) (next_future_jittered_plan iso uniform s now unopened round anchors)
        ≡ true
  unfolding next_future_jittered_plan
  next_future_jittered_plan-is_future unopened round [] = refl
  next_future_jittered_plan-is_future unopened round (a ∷ anchors) =
      let drawn = next_future_jittered_plan iso uniform s now unopened (suc round) anchors in
      let undrawn = next_future_jittered_plan iso uniform s now unopened round anchors in
      ground (
        arith,
        skip_one-is_future (utc now) drawn,
        skip_one-is_future (utc now) undrawn,
        next_future_jittered_plan-is_future unopened round anchors,
        next_future_jittered_plan-is_future unopened (suc round) anchors,
      )

  plan_future-is_timely :
      (state idle_state : Entry) (skipped : ℕ) (f : Future)
      → is_future (utc now) f ≡ true
      → is_timely (utc now) (plan_future iso uniform s now state idle_state skipped f).0 ≡ true
  plan_future-is_timely state idle_state skipped (none, more) h = refl
  plan_future-is_timely state idle_state skipped (some (a, planned), more) h = h

  pub plan_anew-is_timely :
      (anchors : List UsageWindowAnchor) (previous : Entry)
      → is_timely (utc now) (plan_anew iso uniform s now anchors previous).0 ≡ true
  unfolding plan_anew
  plan_anew-is_timely anchors previous =
      plan_future-is_timely _ _ 0 _ (next_future_jittered_plan-is_future true 0 anchors)

  pub plan_next-is_timely :
      (anchors : List UsageWindowAnchor) (state : Entry) (skipped : ℕ)
      → is_timely (utc now) (plan_next iso uniform s now anchors state skipped).0 ≡ true
  unfolding plan_next
  plan_next-is_timely anchors state skipped =
      plan_future-is_timely state _ skipped _ (next_future_jittered_plan-is_future false 0 anchors)

timely_choice :
    (instant : ℕ) (due : Bool) (a : UsageWindowAnchor) (planned : Moment)
    → due ≡ leb (utc planned) instant
    → is_timely_as instant (if due then attempt else wait) (some a) (some planned) ≡ true
timely_choice instant true a planned h = sym h
timely_choice instant false a planned h = ground arith

module _ (iso : Moment → String) (from_iso : String → Option Moment)
    (uniform : (round span : ℕ) → ℕ) (s : Schedule) (now : Moment) where
  decide-is_timely :
      (a : UsageWindowAnchor) (planned : Moment) (catch_up : Bool) (skipped : ℕ)
      → is_timely
          (utc now)
          (decide (catch_up_action iso from_iso uniform s now planned) a planned catch_up skipped)
        ≡ true
  unfolding catch_up_action
  decide-is_timely a planned catch_up skipped =
      timely_choice (utc now) (leb (utc planned) (utc now)) a planned refl

  module _ (anchors : List UsageWindowAnchor) (state : Entry) where
    run_due-is_timely :
        (current : WorkInterval) (matching : UsageWindowAnchor) (planned_at : Moment)
        → ltb (utc now) (utc planned_at) ≡ false
        → is_timely
            (utc now)
            (run_due iso from_iso uniform s now anchors state current matching planned_at).0
          ≡ true
    unfolding run_due
    run_due-is_timely current matching planned_at h =
        let planned = catch_up_time iso from_iso uniform s now anchors current in
        ground (arith, decide-is_timely matching planned true 0)

    resume_due-is_timely :
        (current : WorkInterval) (matching : UsageWindowAnchor) (planned_at : Moment)
        (latest : Option UsageWindowAnchor)
        → ltb (utc now) (utc planned_at) ≡ false
        → is_timely_resumed
            (utc now)
            (resume_due iso from_iso uniform s now anchors state current matching planned_at latest)
          ≡ true
    unfolding catch_up_latest
    resume_due-is_timely current matching planned_at (some latest) h =
        decide-is_timely latest (catch_up_time iso from_iso uniform s now anchors current) true
          (max 1 (length (due_anchors iso from_iso uniform s now anchors current) - 1))
    resume_due-is_timely current matching planned_at none h =
        ground (arith, run_due-is_timely current matching planned_at)

    resume_in-is_timely :
        (current : Option WorkInterval) (matching : UsageWindowAnchor) (planned_at : Moment)
        → ltb (utc now) (utc planned_at) ≡ false
        → is_timely_resumed
            (utc now)
            (resume_in iso from_iso uniform s now anchors state current matching planned_at)
          ≡ true
    resume_in-is_timely none matching planned_at h = refl
    resume_in-is_timely (some current) matching planned_at h =
        resume_due-is_timely current matching planned_at _ h

    resume_plan-is_timely :
        (current : Option WorkInterval) (matching : UsageWindowAnchor) (planned_at : Moment)
        → is_timely_resumed
            (utc now)
            (resume_plan iso from_iso uniform s now anchors state current matching planned_at)
          ≡ true
    unfolding resume_plan
    resume_plan-is_timely current matching planned_at =
        ground (arith, resume_in-is_timely current matching planned_at)

    resume_matching-is_timely :
        (current : Option WorkInterval) (planned_at : Moment) (matching : Option UsageWindowAnchor)
        → is_timely_resumed
            (utc now)
            (resume_matching iso from_iso uniform s now anchors state current planned_at matching)
          ≡ true
    resume_matching-is_timely current planned_at none = refl
    resume_matching-is_timely current planned_at (some matching) =
        ground (arith, resume_plan-is_timely current matching planned_at)

    resume_parsed-is_timely :
        (current : Option WorkInterval) (anchor_at planned_at : Option Moment)
        → is_timely_resumed
            (utc now)
            (resume_parsed iso from_iso uniform s now anchors state current anchor_at planned_at)
          ≡ true
    resume_parsed-is_timely current none planned_at = refl
    resume_parsed-is_timely current (some anchor_at) none = refl
    resume_parsed-is_timely current (some anchor_at) (some planned_at) =
        resume_matching-is_timely current planned_at _

    plan_resumed-is_timely :
        (r : Resumed)
        → is_timely_resumed (utc now) r ≡ true
        → is_timely (utc now) (plan_resumed iso from_iso uniform s now anchors state r).0 ≡ true
    plan_resumed-is_timely (settled planned) h = h
    plan_resumed-is_timely (expired skipped) h =
        plan_next-is_timely iso uniform s now anchors state skipped

    resume-is_timely :
        (current : Option WorkInterval)
        → is_timely_resumed (utc now) (resume iso from_iso uniform s now anchors state current)
          ≡ true
    unfolding resume
    resume-is_timely current = resume_parsed-is_timely current _ _

    pub plan_on-is_timely :
        (current : Option WorkInterval) (trustworthy : Bool)
        → is_timely
            (utc now)
            (plan_on iso from_iso uniform s now anchors current state trustworthy).0
          ≡ true
    unfolding plan_on
    plan_on-is_timely current trustworthy =
        let r = resume iso from_iso uniform s now anchors state current in
        ground (
          arith,
          plan_anew-is_timely iso uniform s now anchors state,
          plan_resumed-is_timely r (resume-is_timely current),
        )
