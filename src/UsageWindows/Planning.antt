-- ===== src/UsageWindows/Planning.antt =====
-- Planning of a target: jitter_anchor, _choose_time, _next_future_jittered_plan and plan_target of
-- agent_collab/usage_windows.py. `now` has a zone. `uniform` is the random source: what it draws in a
-- round from a span, in microseconds. `iso` and `from_iso` are those of `datetime`, where a text
-- without a zone counts as none. The fingerprint and the effective schedule are a Schedule's.
use agent_collab.Base.{
  ℕ, ◌+◌, ◌-◌, min, String, Bool, true, false, Option, none, some, List, [], ◌∷◌, if◌then◌else◌,
  ◌=?◌, ◌==◌,
}
use agent_collab.Base.Dict.{Dict, get, put}
use agent_collab.Base.Values.{Value, null, bool, int, pos, str}
use agent_collab.UsageWindows.{
  Moment, utc, at_instant, plus, minus, later_of, earlier_of, minute, UsageWindowAnchor,
}

-- ScheduleDecision
pub data Action : Type 0 where
  wait attempt idle : Action

pub record ScheduleDecision : Type 0 where
  pub action : Action
  pub anchor : Option UsageWindowAnchor
  pub planned_at : Option Moment
  pub catch_up : Bool
  pub skipped : ℕ

abbrev pub Entry : Type 0
Entry = Dict Value

abbrev pub Planned : Type 0
Planned = ScheduleDecision × Entry

-- ON_TIME_WAKE_GRACE
abbrev pub on_time_wake_grace : ℕ
on_time_wake_grace = minute

-- _choose_time, where `draw` is the source's next answer
unfoldable pub choose_time : (draw : ℕ → ℕ) (lower upper : Moment) → Moment
unfolding utc at_instant
choose_time draw lower upper =
    let span = utc upper - utc lower in
    if span =? 0 then lower else at_instant lower.zone (utc lower + min (draw span) (span - 1))

-- The earliest time of a jittered anchor.
unfoldable pub earliest_of : (jitter : ℕ) → UsageWindowAnchor → Moment
unfolding later_of minus
earliest_of jitter a = later_of a.window.start (minus a.base jitter)

-- jitter_anchor
unfoldable pub jitter_anchor : (draw : ℕ → ℕ) (jitter : ℕ) → UsageWindowAnchor → Moment
unfolding choose_time earliest_of earlier_of plus
jitter_anchor draw jitter a =
    choose_time draw (earliest_of jitter a) (earlier_of a.window.end (plus a.base jitter))

-- state.get(key)
abbrev pub or_null : Option Value → Value
or_null none = null
or_null (some v) = v

unfoldable pub look : Entry → String → Value
unfolding get
look state key = or_null (get state key)

-- value == text
abbrev pub is_text : Value → String → Bool
is_text (str s) t = s == t
is_text v t = false

-- _parse_state_datetime
abbrev pub parse_state_datetime : (from_iso : String → Option Moment) → Value → Option Moment
parse_state_datetime from_iso (str s) = from_iso s
parse_state_datetime from_iso v = none

-- fresh_entry
unfoldable pub fresh_entry : (fingerprint : String) → Entry
fresh_entry fingerprint =
    ("schedule_fingerprint", str fingerprint)
    ∷ ("anchor", null)
    ∷ ("planned_at", null)
    ∷ ("attempted_anchor", null)
    ∷ ("last_attempt_at", null)
    ∷ ("last_success_at", null)
    ∷ ("last_outcome", null)
    ∷ ("last_session_id", null)
    ∷ ("consecutive_failures", int (pos 0))
    ∷ ("retry_not_before", null)
    ∷ ("eligible", bool true)
    ∷ ("ineligibility_reason", null)
    ∷ ("catch_up", bool false)
    ∷ []

abbrev pub observed_keys : List String
observed_keys =
    "last_attempt_at" ∷ "last_success_at" ∷ "last_outcome" ∷ "last_session_id"
    ∷ "consecutive_failures" ∷ "retry_not_before" ∷ []

-- What is kept of the entry of another schedule.
abbrev pub carry_key : (key : String) → Option Value → Entry → Entry
carry_key key none state = state
carry_key key (some v) state = put state key v

unfoldable pub carry_over : (previous : Entry) → (keys : List String) → Entry → Entry
unfolding get put
carry_over previous [] state = state
carry_over previous (k ∷ ks) state = carry_over previous ks (carry_key k (get previous k) state)

-- state.update(anchor=..., planned_at=..., catch_up=...)
unfoldable pub update_plan : Entry → (anchor planned_at : Value) (catch_up : Bool) → Entry
unfolding put
update_plan state anchor planned_at catch_up =
    put (put (put state "anchor" anchor) "planned_at" planned_at) "catch_up" (bool catch_up)

abbrev pub decide :
    Action → UsageWindowAnchor → Moment → (catch_up : Bool) (skipped : ℕ) → ScheduleDecision
decide action anchor planned catch_up skipped = record {
  action = action;
  anchor = some anchor;
  planned_at = some planned;
  catch_up = catch_up;
  skipped = skipped;
}

abbrev pub decide_none : (skipped : ℕ) → ScheduleDecision
decide_none skipped = record {
  action = idle;
  anchor = none;
  planned_at = none;
  catch_up = false;
  skipped = skipped;
}

-- What the persisted plan of the same schedule leads to: a decision, or a new plan after some
-- skipped anchors.
pub data Resumed : Type 0 where
  settled : Planned → Resumed
  expired : (skipped : ℕ) → Resumed

-- The last of a list, and the first that passes a test.
abbrev pub last_hit {ℓ} : {A : Type ℓ} → List A → Option A
last_hit [] = none
last_hit (x ∷ []) = some x
last_hit (x ∷ y ∷ ys) = last_hit (y ∷ ys)

abbrev pub first_hit {ℓ} : {A : Type ℓ} → List A → Option A
first_hit [] = none
first_hit (x ∷ xs) = some x
