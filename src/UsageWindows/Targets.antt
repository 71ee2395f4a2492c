-- ===== src/UsageWindows/Targets.antt =====
-- plan_target of agent_collab/usage_windows.py on the anchors and the work interval of `now`.
use agent_collab.Base.{
  ℕ, ◌-◌, max, String, Bool, true, false, ◌&&◌, Option, none, some, List, [], select, length,
  if◌then◌else◌, ltb, leb, ◌=?◌, Result, ok, ◌>>=◌,
}
use agent_collab.Base.Dict.{put}
use agent_collab.Base.Values.{Value, null, bool, str, is_true}
use agent_collab.UsageWindows.{
  Moment, utc, plus, earlier_of, Schedule, WorkInterval, UsageWindowAnchor,
}
use agent_collab.UsageWindows.Anchors.{candidate_anchors, current_work_interval}
use agent_collab.UsageWindows.Planning.{
  Action, wait, attempt, Entry, Planned, on_time_wake_grace, choose_time, look, is_text,
  parse_state_datetime, decide, Resumed, settled, expired, last_hit, first_hit,
}
use agent_collab.UsageWindows.Futures.{plan_anew, plan_next}

module _ (iso : Moment → String) (from_iso : String → Option Moment)
    (uniform : (round span : ℕ) → ℕ) (s : Schedule) (now : Moment) where
  -- The anchor of the current interval that is due last, and the first that is to come.
  unfoldable pub due_anchors : List UsageWindowAnchor → WorkInterval → List UsageWindowAnchor
  unfolding utc
  due_anchors anchors current =
      select (λ a. (a.window.local_day =? current.local_day) && leb (utc a.base) (utc now)) anchors

  unfoldable pub later_anchors : List UsageWindowAnchor → WorkInterval → List UsageWindowAnchor
  unfolding utc
  later_anchors anchors current =
      select (λ a. (a.window.local_day =? current.local_day) && ltb (utc now) (utc a.base)) anchors

  -- A time until the next anchor, or the end of the interval.
  abbrev pub bound_of : WorkInterval → Option UsageWindowAnchor → Moment
  bound_of current none = current.end
  bound_of current (some later) = later.base

  unfoldable pub catch_up_time : List UsageWindowAnchor → WorkInterval → Moment
  unfolding later_anchors choose_time earlier_of plus
  catch_up_time anchors current =
      let upper = bound_of current (first_hit (later_anchors anchors current)) in
      choose_time (uniform 0) now (earlier_of upper (plus now s.jitter))

  unfoldable pub catch_up_action : (planned : Moment) → Action
  unfolding utc
  catch_up_action planned = if leb (utc planned) (utc now) then attempt else wait

  -- A missed anchor that a later one of the same interval replaces.
  unfoldable pub replan_latest : Entry → (anchor planned_at : Value) → Entry
  unfolding put
  replan_latest state anchor planned_at =
      put (put (put (put state "anchor" anchor) "planned_at" planned_at) "attempted_anchor" null)
        "catch_up" (bool true)

  unfoldable pub catch_up_latest :
      List UsageWindowAnchor → Entry → WorkInterval → (latest : UsageWindowAnchor) → Planned
  unfolding catch_up_time catch_up_action due_anchors replan_latest
  catch_up_latest anchors state current latest =
      let planned = catch_up_time anchors current in
      (
        decide (catch_up_action planned) latest planned true
            (max 1 (length (due_anchors anchors current) - 1)),
        replan_latest state (str (iso latest.base)) (str (iso planned)),
      )

  unfoldable pub replan_late : Entry → (planned_at : Value) → Entry
  unfolding put
  replan_late state planned_at = put (put state "planned_at" planned_at) "catch_up" (bool true)

  -- An anchor of the current interval whose time has passed: on time, or to be caught up.
  unfoldable pub run_due :
      List UsageWindowAnchor
      → Entry
      → WorkInterval
      → (matching : UsageWindowAnchor) → (planned_at : Moment) → Planned
  unfolding catch_up_time catch_up_action utc replan_late
  run_due anchors state current matching planned_at =
      let planned = catch_up_time anchors current in
      if leb (utc now - utc planned_at) on_time_wake_grace
      then (decide attempt matching planned_at false 0, state)
      else (
        decide (catch_up_action planned) matching planned true 0,
        replan_late state (str (iso planned)),
      )

  -- The due anchor that replaces the persisted one, if one does.
  abbrev pub superseding :
      (matching : UsageWindowAnchor) → Option UsageWindowAnchor → Option UsageWindowAnchor
  superseding matching none = none
  superseding matching (some latest) =
      if ltb (utc matching.base) (utc latest.base) then some latest else none

  abbrev pub resume_due :
      List UsageWindowAnchor
      → Entry
      → WorkInterval
      → (matching : UsageWindowAnchor) → (planned_at : Moment) → Option UsageWindowAnchor
      → Resumed
  resume_due anchors state current matching planned_at (some latest) =
      settled (catch_up_latest anchors state current latest)
  resume_due anchors state current matching planned_at none =
      if matching.window.local_day =? current.local_day
      then settled (run_due anchors state current matching planned_at)
      else expired 1

  abbrev pub resume_in :
      List UsageWindowAnchor
      → Entry
      → Option WorkInterval
      → (matching : UsageWindowAnchor) → (planned_at : Moment) → Resumed
  resume_in anchors state none matching planned_at = expired 1
  resume_in anchors state (some current) matching planned_at =
      resume_due anchors state current matching planned_at
        (superseding matching (last_hit (due_anchors anchors current)))

  -- A persisted plan that was not attempted.
  unfoldable pub resume_plan :
      List UsageWindowAnchor
      → Entry
      → Option WorkInterval
      → (matching : UsageWindowAnchor) → (planned_at : Moment) → Resumed
  unfolding utc look catch_up_latest run_due due_anchors
  resume_plan anchors state current matching planned_at =
      let catch_up = is_true (look state "catch_up") in
      if ltb (utc now) (utc planned_at)
      then settled (decide wait matching planned_at catch_up 0, state)
      else if catch_up
      then settled (decide attempt matching planned_at true 0, state)
      else resume_in anchors state current matching planned_at

  -- attempted_anchor == state.get("anchor"), where the latter is a text
  unfoldable pub was_attempted : Entry → (anchor : Value) → Bool
  unfolding look
  was_attempted state (str anchor) = is_text (look state "attempted_anchor") anchor
  was_attempted state v = false

  abbrev pub resume_matching :
      List UsageWindowAnchor
      → Entry
      → Option WorkInterval
      → (planned_at : Moment) → Option UsageWindowAnchor
      → Resumed
  resume_matching anchors state current planned_at none = expired 0
  resume_matching anchors state current planned_at (some matching) =
      if was_attempted state (look state "anchor")
      then expired 0
      else resume_plan anchors state current matching planned_at

  abbrev pub matching_anchor : List UsageWindowAnchor → Moment → Option UsageWindowAnchor
  matching_anchor anchors anchor_at = first_hit (select (λ a. utc a.base =? utc anchor_at) anchors)

  abbrev pub resume_parsed :
      List UsageWindowAnchor
      → Entry
      → Option WorkInterval
      → (anchor_at planned_at : Option Moment) → Resumed
  resume_parsed anchors state current none planned_at = expired 0
  resume_parsed anchors state current (some anchor_at) none = expired 0
  resume_parsed anchors state current (some anchor_at) (some planned_at) =
      resume_matching anchors state current planned_at (matching_anchor anchors anchor_at)

  unfoldable pub resume : List UsageWindowAnchor → Entry → Option WorkInterval → Resumed
  unfolding look resume_plan was_attempted
  resume anchors state current =
      resume_parsed anchors state current (parse_state_datetime from_iso (look state "anchor"))
        (parse_state_datetime from_iso (look state "planned_at"))

  abbrev pub plan_resumed : List UsageWindowAnchor → Entry → Resumed → Planned
  plan_resumed anchors state (settled planned) = planned
  plan_resumed anchors state (expired skipped) = plan_next iso uniform s now anchors state skipped

  -- `same_schedule`
  unfoldable pub is_same_schedule : (trustworthy : Bool) → Entry → Bool
  unfolding look
  is_same_schedule trustworthy state =
      trustworthy && is_text (look state "schedule_fingerprint") s.fingerprint

  unfoldable pub plan_on :
      List UsageWindowAnchor → Option WorkInterval → Entry → (trustworthy : Bool) → Planned
  unfolding is_same_schedule plan_anew resume plan_next
  plan_on anchors current state trustworthy =
      if is_same_schedule trustworthy state
      then plan_resumed anchors state (resume anchors state current)
      else plan_anew iso uniform s now anchors state

  abbrev pub entry_or_empty : Option Entry → Entry
  entry_or_empty none = []
  entry_or_empty (some entry) = entry

  unfoldable pub plan_target : (entry : Option Entry) → (trustworthy : Bool) → Result Planned
  unfolding plan_on
  plan_target entry trustworthy = do
    anchors ← candidate_anchors s now
    current ← current_work_interval s now
    ok (plan_on anchors current (entry_or_empty entry) trustworthy)
