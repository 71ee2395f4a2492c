-- ===== src/UsageWindows/Waiting.antt =====
-- A daemon that restarts waits for the time that it had planned: plan_target of
-- agent_collab/usage_windows.py on the entry of a wait.
use agent_collab.Base.{
  lt→ltb, ◌<◌, ℕ, String, Bool, true, false, Option, some, List, ok, ◌≡◌, refl, sym, subst, ◌∙◌, ap,
}
use agent_collab.Base.Values.{is_true}
use agent_collab.UsageWindows.{Moment, utc, Schedule, WorkInterval, UsageWindowAnchor}
use agent_collab.UsageWindows.Anchors.{candidate_anchors, current_work_interval}
use agent_collab.UsageWindows.Planning.{
  Action, wait, Entry, Planned, look, is_text, parse_state_datetime, decide, settled,
}
use agent_collab.UsageWindows.Targets.{
  resume_plan, was_attempted, resume_matching, matching_anchor, resume, is_same_schedule, plan_on,
  entry_or_empty, plan_target,
}
use agent_collab.UsageWindows.Matching.{HasMatch}
use agent_collab.UsageWindows.Records.{Recorded}
use agent_collab.UsageWindows.Attempts.{plan_target-plan_on}
use agent_collab.UsageWindows.Replanning.{RecordsAs, Records, plan_on-Records}

module _ (iso : Moment → String) (from_iso : String → Option Moment) (s : Schedule) where
  -- The wait that an entry has, found again at another time and with other draws.
  module _ (uniform : (round span : ℕ) → ℕ) (later : Moment) (anchors : List UsageWindowAnchor)
      (current : Option WorkInterval) (state : Entry) where
    resume_plan-wait :
        (m : UsageWindowAnchor) (p : Moment)
        → utc later < utc p
        → resume_plan iso from_iso uniform s later anchors state current m p
          ≡ settled (decide wait m p (is_true (look state "catch_up")) 0, state)
    unfolding resume_plan
    resume_plan-wait m p h = rw (lt→ltb (utc later) (utc p) h) refl

    resume_matching-wait :
        (m : UsageWindowAnchor) (p : Moment) (found : Option UsageWindowAnchor)
        → found ≡ some m
        → utc later < utc p
        → was_attempted iso from_iso uniform s later state (look state "anchor") ≡ false
        → resume_matching iso from_iso uniform s later anchors state current p found
          ≡ settled (decide wait m p (is_true (look state "catch_up")) 0, state)
    resume_matching-wait m p found e h unattempted = rw (e, unattempted) (resume_plan-wait m p h)

    resume-wait :
        (a p : Moment) (m : UsageWindowAnchor)
        → parse_state_datetime from_iso (look state "anchor") ≡ some a
        → parse_state_datetime from_iso (look state "planned_at") ≡ some p
        → matching_anchor iso from_iso uniform s later anchors a ≡ some m
        → utc later < utc p
        → was_attempted iso from_iso uniform s later state (look state "anchor") ≡ false
        → resume iso from_iso uniform s later anchors state current
          ≡ settled (decide wait m p (is_true (look state "catch_up")) 0, state)
    unfolding resume
    resume-wait a p m ea ep em h unattempted =
        rw (ea, ep) (resume_matching-wait m p _ em h unattempted)

    plan_on-wait :
        (a p : Moment) (m : UsageWindowAnchor)
        → is_text (look state "schedule_fingerprint") s.fingerprint ≡ true
        → parse_state_datetime from_iso (look state "anchor") ≡ some a
        → parse_state_datetime from_iso (look state "planned_at") ≡ some p
        → matching_anchor iso from_iso uniform s later anchors a ≡ some m
        → utc later < utc p
        → was_attempted iso from_iso uniform s later state (look state "anchor") ≡ false
        → plan_on iso from_iso uniform s later anchors current state true
          ≡ (decide wait m p (is_true (look state "catch_up")) 0, state)
    unfolding plan_on is_same_schedule
    plan_on-wait a p m same ea ep em h unattempted =
        rw (same, resume-wait a p m ea ep em h unattempted) refl

    Recorded-again :
        (anchors0 : List UsageWindowAnchor) (a p : Moment) (c : Bool)
        → Recorded from_iso s.fingerprint anchors0 state (utc a) (utc p) c
        → HasMatch anchors (utc a)
        → utc later < utc p
        → was_attempted iso from_iso uniform s later state (look state "anchor") ≡ false
        → (m : UsageWindowAnchor) × (q : Moment) × (plan_on iso from_iso uniform s later anchors
              current state true
            ≡ (decide wait m q c 0, state))
          × (utc m.base ≡ utc a)
          × (utc q ≡ utc p)
    Recorded-again anchors0 a p c (same, (a2, ea, ta), first, (p2, ep, tp), ec) known h
          unattempted =
        let (m, em, tm) = subst (HasMatch anchors) (sym ta) known in
        let sooner : utc later < utc p2 = subst (λ t. utc later < t) (sym tp) h in
        (
          m,
          p2,
          subst
              (λ b.
                plan_on iso from_iso uniform s later anchors current state true
                ≡ (decide wait m p2 b 0, state))
              ec (plan_on-wait a2 p2 m same ea ep em sooner unattempted),
          tm ∙ ta,
          tp,
        )

  plan_on-plan_target :
      (uniform : (round span : ℕ) → ℕ) (now : Moment) (anchors : List UsageWindowAnchor)
      (current : Option WorkInterval) (state : Entry)
      → candidate_anchors s now ≡ ok anchors
      → current_work_interval s now ≡ ok current
      → plan_target iso from_iso uniform s now (some state) true
        ≡ ok (plan_on iso from_iso uniform s now anchors current state true)
  unfolding plan_target
  plan_on-plan_target uniform now anchors current state ec ei = rw (ec, ei) refl

  as_wait :
      (anchors : List UsageWindowAnchor) (state : Entry) (action : Action)
      (anchor : Option UsageWindowAnchor) (planned_at : Option Moment) (c : Bool)
      (a : UsageWindowAnchor) (p : Moment)
      → RecordsAs from_iso s anchors state action anchor planned_at c
      → action ≡ wait
      → anchor ≡ some a
      → planned_at ≡ some p
      → Recorded from_iso s.fingerprint anchors state (utc a.base) (utc p) c
  as_wait anchors state action anchor planned_at c a p h ew ea ep =
      subst (λ z. RecordsAs from_iso s anchors state wait (some a) z c) ep
        (subst (λ y. RecordsAs from_iso s anchors state wait y planned_at c) ea
          (subst (λ x. RecordsAs from_iso s anchors state x anchor planned_at c) ew h))

  module _
      (reads : (m : Moment) → (n : Moment) × (from_iso (iso m) ≡ some n) × (utc n ≡ utc m)) where
    -- Let a text of a moment read back as a moment of the same instant. Let planning end in a wait for the
    -- time `p` of the anchor `a`, where the entry does not say that its anchor was attempted. Then planning
    -- on this entry, which is trusted now, at another time before `p`, with any draws, among candidates
    -- that have an anchor of the instant of `a`, waits for the instant of `p` and of `a` again, and leaves
    -- the entry as it is.
    pub plan_target-again :
        (uniform again : (round span : ℕ) → ℕ) (now later : Moment) (entry : Option Entry)
        (trustworthy : Bool) (planned : Planned) (a : UsageWindowAnchor) (p : Moment)
        → plan_target iso from_iso uniform s now entry trustworthy ≡ ok planned
        → planned.0.action ≡ wait
        → planned.0.anchor ≡ some a
        → planned.0.planned_at ≡ some p
        → was_attempted iso from_iso uniform s now planned.1 (look planned.1 "anchor") ≡ false
        → (anchors : List UsageWindowAnchor) (current : Option WorkInterval)
        → candidate_anchors s later ≡ ok anchors
        → current_work_interval s later ≡ ok current
        → HasMatch anchors (utc a.base)
        → utc later < utc p
        → (m : UsageWindowAnchor) × (q : Moment) × (plan_target iso from_iso again s later
              (some planned.1)
              true
            ≡ ok (decide wait m q planned.0.catch_up 0, planned.1))
          × (utc m.base ≡ utc a.base)
          × (utc q ≡ utc p)
    unfolding was_attempted
    plan_target-again uniform again now later entry trustworthy planned a p h ew ea ep unattempted
          anchors current ec ei known sooner =
        let (anchors0, current0, e) =
          plan_target-plan_on iso from_iso uniform s now entry trustworthy planned h in
        let state0 = entry_or_empty iso from_iso uniform s now entry in
        let records : Records iso from_iso uniform s now reads anchors0 planned =
          subst (Records iso from_iso uniform s now reads anchors0) e (
            plan_on-Records iso from_iso uniform s now reads anchors0 current0 state0
              trustworthy) in
        let recorded =
          as_wait anchors0 planned.1 planned.0.action planned.0.anchor planned.0.planned_at
            planned.0.catch_up a p records ew ea ep in
        let (m, q, plan, same_anchor, same_time) =
          Recorded-again again later anchors current planned.1 anchors0 a.base p planned.0.catch_up
            recorded known sooner unattempted in
        (
          m,
          q,
          plan_on-plan_target again later anchors current planned.1 ec ei ∙ ap ok plan,
          same_anchor,
          same_time,
        )
