-- ===== src/UsageWindows/Futures.antt =====
-- New plans: _next_future_jittered_plan of agent_collab/usage_windows.py and its uses in plan_target.
use agent_collab.Base.{
  ℕ, suc, ◌+◌, String, Bool, true, false, ◌&&◌, ◌||◌, Option, none, some, List, [], ◌∷◌,
  if◌then◌else◌, ltb, leb,
}
use agent_collab.Base.Values.{null, str}
use agent_collab.UsageWindows.{Moment, utc, Schedule, UsageWindowAnchor}
use agent_collab.UsageWindows.Planning.{
  wait, Entry, Planned, earliest_of, jitter_anchor, fresh_entry, observed_keys, carry_over,
  update_plan, decide, decide_none,
}

-- The anchor and the time of a new plan, if there is one, and the skipped anchors.
abbrev pub Future : Type 0
Future = Option (UsageWindowAnchor × Moment) × ℕ

abbrev pub skip_one : Future → Future
skip_one (found, skipped) = (found, suc skipped)

module _ (iso : Moment → String) (uniform : (round span : ℕ) → ℕ) (s : Schedule)
    (now : Moment) where
  -- The tests of _next_future_jittered_plan before it draws.
  unfoldable pub is_base_past : UsageWindowAnchor → Bool
  unfolding utc
  is_base_past a = leb (utc a.base) (utc now)

  unfoldable pub is_opened : UsageWindowAnchor → Bool
  unfolding utc earliest_of
  is_opened a = leb (utc (earliest_of s.jitter a)) (utc now)

  -- _next_future_jittered_plan; `round` counts the draws
  unfoldable pub next_future_jittered_plan :
      (require_unopened_window : Bool) (round : ℕ) → List UsageWindowAnchor → Future
  unfolding utc jitter_anchor is_base_past is_opened
  next_future_jittered_plan unopened round [] = (none, 0)
  next_future_jittered_plan unopened round (a ∷ anchors) =
      let undrawn = is_base_past a || (unopened && is_opened a) in
      let planned = jitter_anchor (uniform round) s.jitter a in
      let rest =
        next_future_jittered_plan unopened (if undrawn then round else suc round) anchors in
      if is_base_past a
      then rest
      else if undrawn
      then skip_one rest
      else if ltb (utc now) (utc planned)
      then (some (a, planned), 0)
      else skip_one rest

  -- The state of a new plan, or of none, where `idle_state` is the state if there is none.
  abbrev pub plan_future : Entry → (idle_state : Entry) (skipped : ℕ) → Future → Planned
  plan_future state idle_state skipped (none, more) = (decide_none (skipped + more), idle_state)
  plan_future state idle_state skipped (some (a, planned), more) = (
    decide wait a planned false (skipped + more),
    update_plan state (str (iso a.base)) (str (iso planned)) false,
  )

  -- The state of another schedule, or one that is not to be trusted.
  unfoldable pub renewed : (previous : Entry) → Entry
  unfolding carry_over fresh_entry
  renewed previous = carry_over previous observed_keys (fresh_entry s.fingerprint)

  unfoldable pub plan_anew : List UsageWindowAnchor → (previous : Entry) → Planned
  unfolding next_future_jittered_plan renewed
  plan_anew anchors previous =
      plan_future (renewed previous) (renewed previous) 0 (next_future_jittered_plan true 0 anchors)

  unfoldable pub plan_next : List UsageWindowAnchor → Entry → (skipped : ℕ) → Planned
  unfolding next_future_jittered_plan update_plan
  plan_next anchors state skipped =
      plan_future state (update_plan state null null false) skipped
        (next_future_jittered_plan false 0 anchors)
