-- ===== src/UsageWindows/Attempts.antt =====
-- What a plan of agent_collab/usage_windows.py may attempt.
use agent_collab.Base.{
  ok_same, ℕ, suc, String, Bool, true, false, not, ◌&&◌, ◌||◌, Option, none, some, List, [], ◌∷◌,
  ltb, ok, ◌>>=◌, ◌≡◌, refl, arith, >>=-eq-ok, subst,
}
use agent_collab.UsageWindows.{Moment, utc, Schedule, WorkInterval, UsageWindowAnchor}
use agent_collab.UsageWindows.Anchors.{candidate_anchors, current_work_interval}
use agent_collab.UsageWindows.Planning.{
  Action, attempt, ScheduleDecision, Entry, Planned, earliest_of, look, expired,
}
use agent_collab.UsageWindows.Futures.{
  Future, skip_one, is_opened, next_future_jittered_plan, plan_future, renewed, plan_anew,
  plan_next,
}
use agent_collab.UsageWindows.Targets.{
  was_attempted, resume_matching, resume_parsed, resume, plan_resumed, is_same_schedule, plan_on,
  entry_or_empty, plan_target,
}
use agent_collab.UsageWindows.Timely.{is_timely, plan_on-is_timely}

abbrev pub is_attempt : Action → Bool
is_attempt attempt = true
is_attempt action = false

plan_future-unattempted :
    (iso : Moment → String) (uniform : (round span : ℕ) → ℕ) (s : Schedule) (now : Moment)
    (state idle_state : Entry) (skipped : ℕ) (f : Future)
    → is_attempt (plan_future iso uniform s now state idle_state skipped f).0.action ≡ false
plan_future-unattempted iso uniform s now state idle_state skipped (none, more) = refl
plan_future-unattempted iso uniform s now state idle_state skipped (some (a, planned), more) = refl

-- The anchor of a decision, if it has one, has a jitter window that opens after now.
abbrev pub is_unopened : Schedule → (now : Moment) → Option UsageWindowAnchor → Bool
is_unopened s now none = true
is_unopened s now (some a) = ltb (utc now) (utc (earliest_of s.jitter a))

abbrev pub is_unopened_future : Schedule → (now : Moment) → Future → Bool
is_unopened_future s now (none, skipped) = true
is_unopened_future s now (some (a, planned), skipped) = is_unopened s now (some a)

skip_one-unopened :
    (s : Schedule) (now : Moment) (f : Future)
    → is_unopened_future s now (skip_one f) ≡ is_unopened_future s now f
skip_one-unopened s now (none, skipped) = refl
skip_one-unopened s now (some (a, planned), skipped) = refl

module _ (iso : Moment → String) (uniform : (round span : ℕ) → ℕ) (s : Schedule)
    (now : Moment) where
  next_future_jittered_plan-unopened :
      (round : ℕ) (anchors : List UsageWindowAnchor)
      → is_unopened_future s now (next_future_jittered_plan iso uniform s now true round anchors)
        ≡ true
  unfolding next_future_jittered_plan is_opened
  next_future_jittered_plan-unopened round [] = refl
  next_future_jittered_plan-unopened round (a ∷ anchors) =
      let drawn = next_future_jittered_plan iso uniform s now true (suc round) anchors in
      let undrawn = next_future_jittered_plan iso uniform s now true round anchors in
      ground (
        arith,
        skip_one-unopened s now drawn,
        skip_one-unopened s now undrawn,
        next_future_jittered_plan-unopened round anchors,
        next_future_jittered_plan-unopened (suc round) anchors,
      )

  plan_future-unopened :
      (state idle_state : Entry) (skipped : ℕ) (f : Future)
      → is_unopened_future s now f ≡ true
      → is_unopened s now (plan_future iso uniform s now state idle_state skipped f).0.anchor ≡ true
  plan_future-unopened state idle_state skipped (none, more) h = refl
  plan_future-unopened state idle_state skipped (some (a, planned), more) h = h

  plan_anew-unopened :
      (anchors : List UsageWindowAnchor) (previous : Entry)
      → is_unopened s now (plan_anew iso uniform s now anchors previous).0.anchor ≡ true
  unfolding plan_anew
  plan_anew-unopened anchors previous =
      plan_future-unopened (renewed iso uniform s now previous) _ 0 _
        (next_future_jittered_plan-unopened 0 anchors)

  plan_anew-unattempted :
      (anchors : List UsageWindowAnchor) (previous : Entry)
      → is_attempt (plan_anew iso uniform s now anchors previous).0.action ≡ false
  unfolding plan_anew
  plan_anew-unattempted anchors previous =
      plan_future-unattempted iso uniform s now (renewed iso uniform s now previous) _ 0 _

  plan_next-unattempted :
      (anchors : List UsageWindowAnchor) (state : Entry) (skipped : ℕ)
      → is_attempt (plan_next iso uniform s now anchors state skipped).0.action ≡ false
  unfolding plan_next
  plan_next-unattempted anchors state skipped =
      plan_future-unattempted iso uniform s now state _ skipped _

module _ (iso : Moment → String) (from_iso : String → Option Moment)
    (uniform : (round span : ℕ) → ℕ) (s : Schedule) (now : Moment) where
  module _ (anchors : List UsageWindowAnchor) (state : Entry) where
    resume_matching-attempted :
        (current : Option WorkInterval) (planned_at : Moment) (matching : Option UsageWindowAnchor)
        → was_attempted iso from_iso uniform s now state (look state "anchor") ≡ true
        → resume_matching iso from_iso uniform s now anchors state current planned_at matching
          ≡ expired 0
    resume_matching-attempted current planned_at none h = refl
    resume_matching-attempted current planned_at (some matching) h = rw h refl

    resume_parsed-attempted :
        (current : Option WorkInterval) (anchor_at planned_at : Option Moment)
        → was_attempted iso from_iso uniform s now state (look state "anchor") ≡ true
        → resume_parsed iso from_iso uniform s now anchors state current anchor_at planned_at
          ≡ expired 0
    resume_parsed-attempted current none planned_at h = refl
    resume_parsed-attempted current (some anchor_at) none h = refl
    resume_parsed-attempted current (some anchor_at) (some planned_at) h =
        resume_matching-attempted current planned_at _ h

    resume-attempted :
        (current : Option WorkInterval)
        → was_attempted iso from_iso uniform s now state (look state "anchor") ≡ true
        → resume iso from_iso uniform s now anchors state current ≡ expired 0
    unfolding resume
    resume-attempted current h = resume_parsed-attempted current _ _ h

    plan_resumed-unattempted :
        (current : Option WorkInterval)
        → was_attempted iso from_iso uniform s now state (look state "anchor") ≡ true
        → is_attempt
            (plan_resumed iso from_iso uniform s now anchors state
              (resume iso from_iso uniform s now anchors state current)).0.action
          ≡ false
    plan_resumed-unattempted current h =
        rw (resume-attempted current h) (plan_next-unattempted iso uniform s now anchors state 0)

  -- What may not be attempted.
  unfoldable pub is_forbidden : (state : Entry) (trustworthy : Bool) → Bool
  is_forbidden state trustworthy =
      not (is_same_schedule iso from_iso uniform s now trustworthy state)
      || was_attempted iso from_iso uniform s now state (look state "anchor")

  -- What is planned for a schedule that is not that of a trusted state.
  unfoldable pub is_cautious : (state : Entry) (trustworthy : Bool) → ScheduleDecision → Bool
  is_cautious state trustworthy d =
      is_same_schedule iso from_iso uniform s now trustworthy state || is_unopened s now d.anchor

  plan_on-permitted :
      (anchors : List UsageWindowAnchor) (current : Option WorkInterval) (state : Entry)
      (trustworthy : Bool)
      → (is_attempt (plan_on iso from_iso uniform s now anchors current state trustworthy).0.action
          && is_forbidden state trustworthy)
        ≡ false
  unfolding plan_on is_forbidden
  plan_on-permitted anchors current state trustworthy = ground (
    arith,
    plan_anew-unattempted iso uniform s now anchors state,
    plan_resumed-unattempted anchors state current,
  )

  plan_on-cautious :
      (anchors : List UsageWindowAnchor) (current : Option WorkInterval) (state : Entry)
      (trustworthy : Bool)
      → is_cautious state trustworthy
          (plan_on iso from_iso uniform s now anchors current state trustworthy).0
        ≡ true
  unfolding plan_on is_cautious
  plan_on-cautious anchors current state trustworthy =
      ground (arith, plan_anew-unopened iso uniform s now anchors state)

  abbrev pub IsSafePlan : (state : Entry) (trustworthy : Bool) → ScheduleDecision → Type 0
  IsSafePlan state trustworthy d =
      (is_timely (utc now) d ≡ true)
      × ((is_attempt d.action && is_forbidden state trustworthy) ≡ false)
      × (is_cautious state trustworthy d ≡ true)

  -- A plan that is made is one on some anchors.
  pub plan_target-plan_on :
      (entry : Option Entry) (trustworthy : Bool) (planned : Planned)
      → plan_target iso from_iso uniform s now entry trustworthy ≡ ok planned
      → (anchors : List UsageWindowAnchor) × (current : Option WorkInterval) × (plan_on iso from_iso
            uniform s now anchors current
            (entry_or_empty iso from_iso uniform s now entry)
            trustworthy
          ≡ planned)
  unfolding plan_target
  plan_target-plan_on entry trustworthy planned h =
      let state = entry_or_empty iso from_iso uniform s now entry in
      let (anchors, found, more) =
        >>=-eq-ok (candidate_anchors s now)
          (λ anchors. current_work_interval s now >>= (λ current.
            ok (plan_on iso from_iso uniform s now anchors current state trustworthy)))
          h in
      let (current, interval, done) =
        >>=-eq-ok (current_work_interval s now)
          (λ current. ok (plan_on iso from_iso uniform s now anchors current state trustworthy))
          more in
      (anchors, current, ok_same _ planned done)

  -- Whenever a plan is made: a wait is for a time after now and an attempt for one that is not, each with
  -- an anchor; an attempt is made only on a trusted entry of the same schedule, whose anchor it does
  -- not say to be attempted; and on any other entry the planned anchor's jitter window opens after now.
  pub plan_target-IsSafePlan :
      (entry : Option Entry) (trustworthy : Bool) (planned : Planned)
      → plan_target iso from_iso uniform s now entry trustworthy ≡ ok planned
      → IsSafePlan (entry_or_empty iso from_iso uniform s now entry) trustworthy planned.0
  plan_target-IsSafePlan entry trustworthy planned h =
      let state = entry_or_empty iso from_iso uniform s now entry in
      let (anchors, current, e) = plan_target-plan_on entry trustworthy planned h in
      subst (λ p. IsSafePlan state trustworthy p.0) e
        (
          plan_on-is_timely iso from_iso uniform s now anchors state current trustworthy,
          plan_on-permitted anchors current state trustworthy,
          plan_on-cautious anchors current state trustworthy,
        )
