-- ===== src/UsageWindows/Bookkept.antt =====
-- An anchor that was marked as attempted is not attempted again: planning after the bookkeeping of the
-- scheduler of agent_collab/usage_windows.py.
use agent_collab.Base.{
  ok_same, ℕ, String, Bool, true, false, Option, none, some, ◌==◌, Result, ok, >>=-eq-ok, ◌≡◌, refl,
  sym, subst, arith, ◌∙◌, eq_refl,
}
use agent_collab.Base.Dict.{put}
use agent_collab.Base.Values.{ℤ, Value, str}
use agent_collab.UsageWindows.{Moment, Schedule}
use agent_collab.UsageWindows.Planning.{Entry, Planned, look, is_text, parse_state_datetime}
use agent_collab.UsageWindows.Matching.{if-case, if-both, some_same}
use agent_collab.UsageWindows.Records.{look-put}
use agent_collab.UsageWindows.Targets.{was_attempted, plan_target}
use agent_collab.UsageWindows.Attempts.{is_attempt, is_forbidden, plan_target-IsSafePlan}
use agent_collab.UsageWindows.Bookkeeping.{
  or_no_failures, is_before_retry, Begun, already, deferred, begun, defer, mark_attempted,
  begin_attempt, count_outcome, set_retry, finish_attempt, set_eligibility, skip_ineligible,
}

-- The first writes of the end of an attempt.
abbrev pub outcome_written : Entry → (outcome session_id : String) → Entry
outcome_written e outcome session_id =
    put (put e "last_outcome" (str outcome)) "last_session_id" (str session_id)

-- What the scheduler writes after it has begun with an anchor, and before the next plan.
pub data Bookkeeping (iso : Moment → String) (from_iso : String → Option Moment)
    (to_int : Value → Result ℤ) (after : Moment → Value → String) : Entry → Entry → Type 0 where
  nothing : (e : Entry) → Bookkeeping iso from_iso to_int after e e
  finished :
      {d e f : Entry} (outcome session_id : String) (at : Moment) (retry_after : Value)
      → Bookkeeping iso from_iso to_int after d e
      → finish_attempt iso from_iso to_int after e outcome session_id at retry_after ≡ ok f
      → Bookkeeping iso from_iso to_int after d f
  -- An end that raises after its first writes: `int`, or the addition of the delay.
  uncounted :
      {d e : Entry} (outcome session_id : String)
      → Bookkeeping iso from_iso to_int after d e
      → Bookkeeping iso from_iso to_int after d (outcome_written e outcome session_id)
  undelayed :
      {d e f : Entry} (outcome session_id : String) (at : Moment)
      → Bookkeeping iso from_iso to_int after d e
      → count_outcome iso from_iso to_int after (outcome_written e outcome session_id) outcome at
        ≡ ok f
      → Bookkeeping iso from_iso to_int after d f
  eligibility :
      {d e : Entry} (reason : Option String)
      → Bookkeeping iso from_iso to_int after d e
      → Bookkeeping iso from_iso to_int after d (set_eligibility e reason)

-- The keys that say whether the anchor was attempted.
abbrev pub KeepsMarks : Entry → Entry → Type 0
KeepsMarks d e =
    (look e "anchor" ≡ look d "anchor") × (look e "attempted_anchor" ≡ look d "attempted_anchor")

set_eligibility-KeepsMarks :
    (e : Entry) (reason : Option String) → KeepsMarks e (set_eligibility e reason)
unfolding set_eligibility
set_eligibility-KeepsMarks e reason = simp look-put (refl, refl)

outcome_written-KeepsMarks :
    (e : Entry) (outcome session_id : String) → KeepsMarks e (outcome_written e outcome session_id)
outcome_written-KeepsMarks e outcome session_id = (simp look-put, simp look-put)

ok-KeepsMarks : (d e f : Entry) → KeepsMarks d e → ok e ≡ ok f → KeepsMarks d f
ok-KeepsMarks d e f keeps h = subst (KeepsMarks d) (ok_same e f h) keeps

module _ (iso : Moment → String) (from_iso : String → Option Moment) (to_int : Value → Result ℤ)
    (after : Moment → Value → String) where
  count_outcome-KeepsMarks :
      (e f : Entry) (outcome : String) (at : Moment)
      → count_outcome iso from_iso to_int after e outcome at ≡ ok f
      → KeepsMarks e f
  unfolding count_outcome
  count_outcome-KeepsMarks e f outcome at =
      if-case (λ r. r ≡ ok f → KeepsMarks e f) (outcome == "completed") _ _
        (λ completed h. ok-KeepsMarks e _ f (simp look-put (refl, refl)) h)
        (λ h.
          let (n, counted, done) =
            >>=-eq-ok (to_int (or_no_failures (look e "consecutive_failures"))) _ h in
          ok-KeepsMarks e _ f (simp look-put (refl, refl)) done)

  set_retry-KeepsMarks :
      (e : Entry) (at : Moment) (v : Value)
      → KeepsMarks e (set_retry iso from_iso to_int after e at v)
  unfolding set_retry
  set_retry-KeepsMarks e at v = simp look-put (refl, refl)

  finish_attempt-KeepsMarks :
      (e f : Entry) (outcome session_id : String) (at : Moment) (v : Value)
      → finish_attempt iso from_iso to_int after e outcome session_id at v ≡ ok f
      → KeepsMarks e f
  unfolding finish_attempt
  finish_attempt-KeepsMarks e f outcome session_id at v h =
      let named : Entry =
        put (put e "last_outcome" (str outcome)) "last_session_id" (str session_id) in
      let (c, counted, done) =
        >>=-eq-ok (count_outcome iso from_iso to_int after named outcome at) _ h in
      let (a, b) = count_outcome-KeepsMarks named c outcome at counted in
      let (a2, b2) = set_retry-KeepsMarks c at v in
      ok-KeepsMarks e _ f (a2 ∙ a ∙ simp look-put, b2 ∙ b ∙ simp look-put) done

  Bookkeeping-KeepsMarks :
      {d e : Entry} → Bookkeeping iso from_iso to_int after d e → KeepsMarks d e
  Bookkeeping-KeepsMarks (nothing e) = (refl, refl)
  Bookkeeping-KeepsMarks (finished {d} {e} {f} outcome session_id at v steps h) =
      let (a, b) = Bookkeeping-KeepsMarks steps in
      let (a2, b2) = finish_attempt-KeepsMarks e f outcome session_id at v h in (a2 ∙ a, b2 ∙ b)
  Bookkeeping-KeepsMarks (uncounted {d} {e} outcome session_id steps) =
      let (a, b) = Bookkeeping-KeepsMarks steps in
      let (a2, b2) = outcome_written-KeepsMarks e outcome session_id in (a2 ∙ a, b2 ∙ b)
  Bookkeeping-KeepsMarks (undelayed {d} {e} {f} outcome session_id at steps h) =
      let (a, b) = Bookkeeping-KeepsMarks steps in
      let (a2, b2) = outcome_written-KeepsMarks e outcome session_id in
      let (a3, b3) =
        count_outcome-KeepsMarks (outcome_written e outcome session_id) f outcome at h in
      (a3 ∙ a2 ∙ a, b3 ∙ b2 ∙ b)
  Bookkeeping-KeepsMarks (eligibility {d} {e} reason steps) =
      let (a, b) = Bookkeeping-KeepsMarks steps in
      let (a2, b2) = set_eligibility-KeepsMarks e reason in (a2 ∙ a, b2 ∙ b)

-- The entry with which an attempt goes on or is given up, if it does.
abbrev pub entry_of : Begun → Option Entry
entry_of already = none
entry_of (deferred e) = some e
entry_of (begun e) = some e

-- The marks of an entry `f` that has taken the anchor of `e` for attempted.
abbrev pub Takes : Entry → (anchor_text : String) → Entry → Type 0
Takes e text f = (look f "anchor" ≡ look e "anchor") × (look f "attempted_anchor" ≡ str text)

some-Takes : (e f g : Entry) (text : String) → Takes e text f → some f ≡ some g → Takes e text g
some-Takes e f g text takes h = subst (Takes e text) (some_same f g h) takes

begin_attempt-Takes :
    (iso : Moment → String) (from_iso : String → Option Moment) (e g : Entry)
    (text session_id : String) (started : Moment) (catch_up : Bool)
    → entry_of (begin_attempt iso from_iso e text session_id started catch_up) ≡ some g
    → Takes e text g
unfolding begin_attempt defer mark_attempted
begin_attempt-Takes iso from_iso e g text session_id started catch_up =
    let P : Begun → Type 0 = λ b. entry_of b ≡ some g → Takes e text g in
    if-both P (is_text (look e "attempted_anchor") text) _ _ (λ h. cc)
      (if-both P
        (is_before_retry iso from_iso started
          (parse_state_datetime from_iso (look e "retry_not_before")))
        _ _ (λ h. some-Takes e _ g text (simp look-put (refl, refl)) h)
        (λ h. some-Takes e _ g text (simp look-put (refl, refl)) h))

module _ (iso : Moment → String) (from_iso : String → Option Moment)
    (uniform : (round span : ℕ) → ℕ) (s : Schedule) (now : Moment) where
  taken-attempted :
      (text : String) (e : Entry)
      → look e "attempted_anchor" ≡ str text
      → was_attempted iso from_iso uniform s now e (str text) ≡ true
  unfolding was_attempted
  taken-attempted text e b = subst (λ v. is_text v text ≡ true) (sym b) (eq_refl text)

  taken-forbidden :
      (text : String) (e : Entry) (trustworthy : Bool)
      → look e "anchor" ≡ str text
      → look e "attempted_anchor" ≡ str text
      → is_forbidden iso from_iso uniform s now e trustworthy ≡ true
  unfolding is_forbidden
  taken-forbidden text e trustworthy a b = ground (
    arith,
    subst (λ v. was_attempted iso from_iso uniform s now e v ≡ true) (sym a)
        (taken-attempted text e b),
  )

  -- A plan on an entry that says of its anchor that it was attempted.
  taken-unattempted :
      (text : String) (g : Entry) (trustworthy : Bool) (planned : Planned)
      → look g "anchor" ≡ str text
      → look g "attempted_anchor" ≡ str text
      → plan_target iso from_iso uniform s now (some g) trustworthy ≡ ok planned
      → is_attempt planned.0.action ≡ false
  taken-unattempted text g trustworthy planned a b h =
      let safe = plan_target-IsSafePlan iso from_iso uniform s now (some g) trustworthy planned h in
      ground (arith, safe.1, taken-forbidden text g trustworthy a b)

  -- The anchor that an entry names is not attempted after it was skipped as not eligible.
  plan_target-skip_ineligible :
      (e : Entry) (text reason : String) (trustworthy : Bool) (planned : Planned)
      → look e "anchor" ≡ str text
      → plan_target iso from_iso uniform s now (some (skip_ineligible e text reason)) trustworthy
        ≡ ok planned
      → is_attempt planned.0.action ≡ false
  unfolding skip_ineligible
  plan_target-skip_ineligible e text reason trustworthy planned named h =
      taken-unattempted text (skip_ineligible e text reason) trustworthy planned
        (simp look-put named) (simp look-put) h

  -- Let the scheduler begin with the anchor that an entry names, and mark it as attempted, be it to invoke
  -- a session or to put it off. Whatever it then writes to the entry, up to the next plan, be it trusted
  -- or not: that plan, where it is made, is no attempt.
  pub plan_target-begin_attempt :
      (to_int : Value → Result ℤ) (after : Moment → Value → String) (e f g : Entry)
      (text session_id : String) (started : Moment) (catch_up trustworthy : Bool)
      (planned : Planned)
      → look e "anchor" ≡ str text
      → entry_of (begin_attempt iso from_iso e text session_id started catch_up) ≡ some f
      → Bookkeeping iso from_iso to_int after f g
      → plan_target iso from_iso uniform s now (some g) trustworthy ≡ ok planned
      → is_attempt planned.0.action ≡ false
  plan_target-begin_attempt to_int after e f g text session_id started catch_up trustworthy planned
        named took steps h =
      let (a, b) = begin_attempt-Takes iso from_iso e f text session_id started catch_up took in
      let (a2, b2) = Bookkeeping-KeepsMarks iso from_iso to_int after steps in
      taken-unattempted text g trustworthy planned (a2 ∙ a ∙ named) (b2 ∙ b) h
