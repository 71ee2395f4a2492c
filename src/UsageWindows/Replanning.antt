-- ===== src/UsageWindows/Replanning.antt =====
-- A wait that plan_target of agent_collab/usage_windows.py records is the wait that it finds again.
use agent_collab.Base.{
  eq_refl, ℕ, ◌-◌, String, Bool, true, false, ◌&&◌, Option, none, some, List, if◌then◌else◌, ltb,
  leb, ◌=?◌, ◌≡◌, refl, sym, subst, arith,
}
use agent_collab.Base.Values.{str, is_true}
use agent_collab.UsageWindows.{Moment, utc, Schedule, WorkInterval, UsageWindowAnchor}
use agent_collab.UsageWindows.Planning.{
  Action, wait, attempt, Entry, Planned, on_time_wake_grace, look, is_text, parse_state_datetime,
  Resumed, settled, expired, last_hit,
}
use agent_collab.UsageWindows.Futures.{
  Future, next_future_jittered_plan, plan_future, renewed, plan_anew, plan_next,
}
use agent_collab.UsageWindows.Targets.{
  due_anchors, catch_up_time, catch_up_action, catch_up_latest, run_due, superseding, resume_due,
  resume_in, resume_plan, was_attempted, resume_matching, resume_parsed, matching_anchor, resume,
  plan_resumed, is_same_schedule, plan_on,
}
use agent_collab.UsageWindows.Matching.{
  HasMatch, IsMatched, FutureIs, all-IsMatched, All-select, All-last_hit,
  next_future_jittered_plan-FutureIs, found-same, if-both, if-case,
}
use agent_collab.UsageWindows.Records.{
  Names, Recorded, update_plan-Recorded, replan_latest-Recorded, replan_late-Recorded,
  renewed-fingerprint,
}

-- The entry of a wait records its anchor and its time.
abbrev pub RecordsAs :
    (from_iso : String → Option Moment)
    → Schedule
    → List UsageWindowAnchor
    → Entry
    → Action
    → Option UsageWindowAnchor
    → Option Moment
    → (catch_up : Bool) → Type 0
RecordsAs from_iso s anchors state wait (some a) (some p) c =
    Recorded from_iso s.fingerprint anchors state (utc a.base) (utc p) c
RecordsAs from_iso s anchors state action a p c = Unit

and_right : (a b : Bool) → (a && b) ≡ true → b ≡ true
and_right a b h = ground arith

if_some :
    (b : Bool) (x a : UsageWindowAnchor) → (if b then some x else none) ≡ some a → some x ≡ some a
if_some true x a h = h
if_some false x a h = cc

module _ (iso : Moment → String) (from_iso : String → Option Moment)
    (uniform : (round span : ℕ) → ℕ) (s : Schedule) (now : Moment)
    (reads : (m : Moment) → (n : Moment) × (from_iso (iso m) ≡ some n) × (utc n ≡ utc m))
    (anchors : List UsageWindowAnchor) where
  abbrev pub Records : Planned → Type 0
  Records (d, state) = RecordsAs from_iso s anchors state d.action d.anchor d.planned_at d.catch_up

  abbrev pub RecordsResumed : Resumed → Type 0
  RecordsResumed (settled planned) = Records planned
  RecordsResumed (expired skipped) = Unit

  plan_future-Records :
      (state idle_state : Entry) (skipped : ℕ) (f : Future)
      → is_text (look state "schedule_fingerprint") s.fingerprint ≡ true
      → FutureIs (IsMatched anchors) f
      → Records (plan_future iso uniform s now state idle_state skipped f)
  plan_future-Records state idle_state skipped (none, more) h m = tt
  plan_future-Records state idle_state skipped (some (a, planned), more) h m =
      update_plan-Recorded from_iso s.fingerprint anchors state (utc a.base) (utc planned)
        (str (iso a.base)) (str (iso planned)) false h (reads a.base) m (reads planned)

  matched :
      (unopened : Bool)
      → FutureIs
          (IsMatched anchors)
          (next_future_jittered_plan iso uniform s now unopened 0 anchors)
  matched unopened =
      next_future_jittered_plan-FutureIs iso uniform s now (IsMatched anchors) unopened 0 anchors
        (all-IsMatched anchors)

  renewed-same :
      (previous : Entry)
      → is_text (look (renewed iso uniform s now previous) "schedule_fingerprint") s.fingerprint
        ≡ true
  renewed-same previous =
      subst (λ v. is_text v s.fingerprint ≡ true)
        (sym (renewed-fingerprint iso uniform s now previous)) (eq_refl s.fingerprint)

  plan_anew-Records : (previous : Entry) → Records (plan_anew iso uniform s now anchors previous)
  unfolding plan_anew
  plan_anew-Records previous =
      plan_future-Records (renewed iso uniform s now previous) _ 0 _ (renewed-same previous)
        (matched true)

  plan_next-Records :
      (state : Entry) (skipped : ℕ)
      → is_text (look state "schedule_fingerprint") s.fingerprint ≡ true
      → Records (plan_next iso uniform s now anchors state skipped)
  unfolding plan_next
  plan_next-Records state skipped h = plan_future-Records state _ skipped _ h (matched false)

  action-Records :
      (due : Bool) (state : Entry) (a : UsageWindowAnchor) (p : Moment) (c : Bool)
      → Recorded from_iso s.fingerprint anchors state (utc a.base) (utc p) c
      → RecordsAs from_iso s anchors state (if due then attempt else wait) (some a) (some p) c
  action-Records true state a p c h = tt
  action-Records false state a p c h = h

  module _ (state : Entry)
      (same : is_text (look state "schedule_fingerprint") s.fingerprint ≡ true) where
    catch_up_latest-Records :
        (current : WorkInterval) (latest : UsageWindowAnchor)
        → IsMatched anchors latest
        → Records (catch_up_latest iso from_iso uniform s now anchors state current latest)
    unfolding catch_up_latest catch_up_action
    catch_up_latest-Records current latest m =
        let planned = catch_up_time iso from_iso uniform s now anchors current in
        action-Records (leb (utc planned) (utc now)) _ latest planned true (
          replan_latest-Recorded from_iso s.fingerprint anchors state (utc latest.base)
            (utc planned) (str (iso latest.base)) (str (iso planned)) iso uniform s now same
            (reads latest.base) m (reads planned))

    due-IsMatched :
        (current : WorkInterval) (a : UsageWindowAnchor)
        → last_hit (due_anchors iso from_iso uniform s now anchors current) ≡ some a
        → IsMatched anchors a
    unfolding due_anchors
    due-IsMatched current a h =
        All-last_hit (IsMatched anchors) _ a
          (All-select (IsMatched anchors) _ anchors (all-IsMatched anchors)) h

    module _ (matching : UsageWindowAnchor) (planned_at : Moment)
        (named : Names from_iso (look state "anchor") (utc matching.base))
        (known : IsMatched anchors matching)
        (timed : Names from_iso (look state "planned_at") (utc planned_at)) where
      run_due-Records :
          (current : WorkInterval)
          → Records (run_due iso from_iso uniform s now anchors state current matching planned_at)
      unfolding run_due catch_up_action
      run_due-Records current =
          let planned = catch_up_time iso from_iso uniform s now anchors current in
          let record_late =
            replan_late-Recorded from_iso s.fingerprint anchors state (utc matching.base)
              (utc planned) (str (iso planned)) (str (iso planned)) iso uniform s now same named
              known (reads planned) in
          if-both Records (leb (utc now - utc planned_at) on_time_wake_grace) _ _ tt
            (action-Records (leb (utc planned) (utc now)) _ matching planned true record_late)

      resume_due-Records :
          (current : WorkInterval) (latest : Option UsageWindowAnchor)
          → ((a : UsageWindowAnchor) → latest ≡ some a → IsMatched anchors a)
          → RecordsResumed (
              resume_due iso from_iso uniform s now anchors state current matching planned_at
                latest)
      resume_due-Records current (some latest) m =
          catch_up_latest-Records current latest (m latest refl)
      resume_due-Records current none m =
          if-both RecordsResumed (matching.window.local_day =? current.local_day) _ _
            (run_due-Records current) tt

      superseding-IsMatched :
          (due : Option UsageWindowAnchor)
          → ((a : UsageWindowAnchor) → due ≡ some a → IsMatched anchors a)
          → (a : UsageWindowAnchor) → superseding iso from_iso uniform s now matching due ≡ some a
          → IsMatched anchors a
      superseding-IsMatched none m a h = m a h
      superseding-IsMatched (some latest) m a h =
          m a (if_some (ltb (utc matching.base) (utc latest.base)) latest a h)

      resume_in-Records :
          (current : Option WorkInterval)
          → RecordsResumed
              (resume_in iso from_iso uniform s now anchors state current matching planned_at)
      resume_in-Records none = tt
      resume_in-Records (some current) =
          resume_due-Records current _ (superseding-IsMatched _ (due-IsMatched current))

      resume_plan-Records :
          (current : Option WorkInterval)
          → RecordsResumed
              (resume_plan iso from_iso uniform s now anchors state current matching planned_at)
      unfolding resume_plan
      resume_plan-Records current =
          let catch_up = is_true (look state "catch_up") in
          if-both RecordsResumed (ltb (utc now) (utc planned_at)) _ _
            (same, named, known, timed, refl)
            (if-both RecordsResumed catch_up _ _ tt (resume_in-Records current))

    resume_matching-Records :
        (current : Option WorkInterval) (anchor_at planned_at : Moment)
        (m : Option UsageWindowAnchor)
        → matching_anchor iso from_iso uniform s now anchors anchor_at ≡ m
        → Names from_iso (look state "anchor") (utc anchor_at)
        → Names from_iso (look state "planned_at") (utc planned_at)
        → RecordsResumed
            (resume_matching iso from_iso uniform s now anchors state current planned_at m)
    resume_matching-Records current anchor_at planned_at none e named timed = tt
    resume_matching-Records current anchor_at planned_at (some matching) e named timed =
        let found = found-same anchors (utc anchor_at) matching e in
        let anchor_named = subst (Names from_iso (look state "anchor")) (sym found) named in
        let known = subst (HasMatch anchors) (sym found) (matching, e, found) in
        if-both RecordsResumed
          (was_attempted iso from_iso uniform s now state (look state "anchor")) _ _ tt
          (resume_plan-Records matching planned_at anchor_named known timed current)

    resume_parsed-Records :
        (current : Option WorkInterval) (anchor_at planned_at : Option Moment)
        → parse_state_datetime from_iso (look state "anchor") ≡ anchor_at
        → parse_state_datetime from_iso (look state "planned_at") ≡ planned_at
        → RecordsResumed
            (resume_parsed iso from_iso uniform s now anchors state current anchor_at planned_at)
    resume_parsed-Records current none planned_at ha hp = tt
    resume_parsed-Records current (some anchor_at) none ha hp = tt
    resume_parsed-Records current (some anchor_at) (some planned_at) ha hp =
        resume_matching-Records current anchor_at planned_at _ refl (anchor_at, ha, refl)
          (planned_at, hp, refl)

    plan_resumed-Records :
        (r : Resumed)
        → RecordsResumed r
        → Records (plan_resumed iso from_iso uniform s now anchors state r)
    plan_resumed-Records (settled planned) h = h
    plan_resumed-Records (expired skipped) h = plan_next-Records state skipped same

    resume-Records :
        (current : Option WorkInterval)
        → Records (
            plan_resumed iso from_iso uniform s now anchors state
              (resume iso from_iso uniform s now anchors state current))
    unfolding resume
    resume-Records current = plan_resumed-Records _ (resume_parsed-Records current _ _ refl refl)

  pub plan_on-Records :
      (current : Option WorkInterval) (state : Entry) (trustworthy : Bool)
      → Records (plan_on iso from_iso uniform s now anchors current state trustworthy)
  unfolding plan_on is_same_schedule
  plan_on-Records current state trustworthy =
      if-case Records (is_same_schedule iso from_iso uniform s now trustworthy state) _ _
        (λ h. resume-Records state (and_right trustworthy _ h) current) (plan_anew-Records state)
