-- ===== src/UsageWindows/Bookkeeping.antt =====
-- What the scheduler of agent_collab/usage_windows.py writes to an entry besides plans: run_once on
-- eligibility, and `_attempt` before and after it invokes a session. Python's `int` and the text of a
-- moment some seconds later, `(finished + timedelta(seconds=...)).isoformat()`, are parameters.
use agent_collab.Base.{
  zero, suc, String, Bool, true, false, not, ◌&&◌, Option, none, some, if◌then◌else◌, ltb, ◌=?◌,
  ◌==◌, Result, ok, ◌>>=◌,
}
use agent_collab.Base.Dict.{put}
use agent_collab.Base.Values.{
  ℤ, pos, negsuc, finite, infinite, Value, null, bool, int, float, str, is_true,
}
use agent_collab.UsageWindows.{Moment, utc}
use agent_collab.UsageWindows.Planning.{Entry, look, is_text, parse_state_datetime}

-- What `_attempt` does with an entry before it would invoke a session.
pub data Begun : Type 0 where
  already : Begun
  deferred : Entry → Begun
  begun : Entry → Begun

-- Python's `n + 1`.
unfoldable pub next_int : ℤ → ℤ
next_int (pos n) = pos (suc n)
next_int (negsuc zero) = pos 0
next_int (negsuc (suc n)) = negsuc n

-- isinstance(v, (int, float)) and not isinstance(v, bool) and v > 0
unfoldable pub is_delay : Value → Bool
is_delay (int (pos n)) = not (n =? 0)
is_delay (float (finite negative n k)) = not negative && not (n =? 0)
is_delay (float (infinite negative)) = not negative
is_delay v = false

-- entry.get("consecutive_failures") or 0
abbrev pub or_no_failures : Value → Value
or_no_failures v = if is_true v then v else int (pos 0)

abbrev pub reason_value : Option String → Value
reason_value none = null
reason_value (some reason) = str reason

abbrev pub is_eligible : Option String → Bool
is_eligible none = true
is_eligible (some reason) = false

module _ (iso : Moment → String) (from_iso : String → Option Moment) where
  -- Retry guidance that has not passed.
  abbrev pub is_before_retry : (started : Moment) → Option Moment → Bool
  is_before_retry started none = false
  is_before_retry started (some retry_at) = ltb (utc started) (utc retry_at)

  unfoldable pub defer : Entry → (anchor_text : String) → Entry
  unfolding put
  defer entry anchor_text =
      put (put entry "attempted_anchor" (str anchor_text)) "last_outcome" (str "retry_not_before")

  unfoldable pub mark_attempted :
      Entry → (anchor_text session_id : String) → (started : Moment) (catch_up : Bool) → Entry
  unfolding put
  mark_attempted entry anchor_text session_id started catch_up =
      put
        (put
          (put
            (put (put entry "attempted_anchor" (str anchor_text)) "last_attempt_at"
              (str (iso started)))
            "last_outcome" (str "started"))
          "last_session_id" (str session_id))
        "catch_up" (bool catch_up)

  -- `_attempt` up to the call of `invoke`
  unfoldable pub begin_attempt :
      Entry → (anchor_text session_id : String) → (started : Moment) (catch_up : Bool) → Begun
  unfolding look defer mark_attempted utc
  begin_attempt entry anchor_text session_id started catch_up =
      if is_text (look entry "attempted_anchor") anchor_text
      then already
      else if is_before_retry started
          (parse_state_datetime from_iso (look entry "retry_not_before"))
      then deferred (defer entry anchor_text)
      else begun (mark_attempted entry anchor_text session_id started catch_up)

module _ (iso : Moment → String) (from_iso : String → Option Moment) (to_int : Value → Result ℤ)
    (after : Moment → Value → String) where
  unfoldable pub count_outcome : Entry → (outcome : String) → (finished : Moment) → Result Entry
  unfolding put look next_int
  count_outcome entry outcome finished =
      if outcome == "completed"
      then ok (
          put (put entry "last_success_at" (str (iso finished))) "consecutive_failures"
            (int (pos 0)))
      else to_int (or_no_failures (look entry "consecutive_failures"))
        >>= (λ n. ok (put entry "consecutive_failures" (int (next_int n))))

  unfoldable pub set_retry : Entry → (finished : Moment) → (retry_after : Value) → Entry
  unfolding put is_delay
  set_retry entry finished retry_after =
      put entry "retry_not_before"
        (if is_delay retry_after then str (after finished retry_after) else null)

  -- `_attempt` after the call of `invoke`; where it raises, what it wrote before stays in the entry
  unfoldable pub finish_attempt :
      Entry
      → (outcome session_id : String) → (finished : Moment) → (retry_after : Value) → Result Entry
  unfolding put count_outcome set_retry
  finish_attempt entry outcome session_id finished retry_after =
      count_outcome
        (put (put entry "last_outcome" (str outcome)) "last_session_id" (str session_id)) outcome
        finished
      >>= (λ counted. ok (set_retry counted finished retry_after))

-- live["eligible"] = eligible; live["ineligibility_reason"] = reason. The code leaves equal values alone.
unfoldable pub set_eligibility : Entry → (reason : Option String) → Entry
unfolding put
set_eligibility entry reason =
    put (put entry "eligible" (bool (is_eligible reason))) "ineligibility_reason"
      (reason_value reason)

-- The anchor of an attempt of a target that is not eligible is skipped. The code leaves equal values
-- alone here too.
unfoldable pub skip_ineligible : Entry → (anchor_text reason : String) → Entry
unfolding put
skip_ineligible entry anchor_text reason =
    put (put entry "attempted_anchor" (str anchor_text)) "last_outcome" (str reason)
