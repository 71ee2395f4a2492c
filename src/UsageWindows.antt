-- ===== src/UsageWindows.antt =====
-- Times of agent_collab/usage_windows.py: `datetime`s with a zone, days and schedules. Times are whole
-- microseconds and days are counted, both from 0001-01-01, which is a Monday; a schedule's times are
-- far from the first day, before which `datetime` would raise. The offsets of a zone are those of the time zone database.
pub mod Anchors
pub mod Planning
mod Examples
mod AttemptExamples
pub mod Bookkeeping
pub mod Bookkept
pub mod Candidates
pub mod Futures
pub mod Rounds
pub mod Attempts
pub mod Matching
pub mod Records
pub mod Replanning
pub mod Waiting
pub mod Targets
pub mod Timely
use agent_collab.Base.{
  ℕ, ◌+◌, ◌-◌, ◌*◌, ◌/◌, ◌%◌, String, Bool, true, false, ltb, leb, ◌=?◌, if◌then◌else◌, ◌==◌, List,
}

-- A `tzinfo`: the instant of a wall time, where `fold` tells the second of two apart, and the wall time
-- of an instant.
pub record Zone : Type 0 where
  pub name : String
  pub utc_of : (wall : ℕ) (fold : Bool) → ℕ
  pub wall_of : (instant : ℕ) → ℕ × Bool

pub record Moment : Type 0 where
  pub wall : ℕ
  pub fold : Bool
  pub zone : Zone

abbrev pub minute : ℕ
minute = 60000000

abbrev pub day_length : ℕ
day_length = 86400000000

-- m.astimezone(timezone.utc), as a number
unfoldable pub utc : Moment → ℕ
utc m = m.zone.utc_of m.wall m.fold

-- The moment of an instant in a zone: `astimezone(zone)`.
unfoldable pub at_instant : Zone → ℕ → Moment
at_instant zone t =
    let (wall, fold) = zone.wall_of t in record { wall = wall; fold = fold; zone = zone }

-- m + delta and m - delta, in wall time
unfoldable pub plus : Moment → ℕ → Moment
plus m d = record { wall = m.wall + d; fold = false; zone = m.zone }

unfoldable pub minus : Moment → ℕ → Moment
minus m d = record { wall = m.wall - d; fold = false; zone = m.zone }

-- a < b: by wall time in one zone, else by instant
unfoldable pub is_before : Moment → Moment → Bool
unfolding utc
is_before a b = if a.zone.name == b.zone.name then ltb a.wall b.wall else ltb (utc a) (utc b)

-- max(a, b) and min(a, b)
unfoldable pub later_of : Moment → Moment → Moment
unfolding is_before
later_of a b = if is_before a b then b else a

unfoldable pub earlier_of : Moment → Moment → Moment
unfolding is_before
earlier_of a b = if is_before b a then b else a

-- The effective schedule of a target; `start` and `end` are times of day.
pub record Schedule : Type 0 where
  pub fingerprint : String
  pub days : List String
  pub start : ℕ
  pub end : ℕ
  pub interval : ℕ
  pub jitter : ℕ
  pub zone : Zone

pub record WorkInterval : Type 0 where
  pub local_day : ℕ
  pub start : Moment
  pub end : Moment

pub record UsageWindowAnchor : Type 0 where
  pub base : Moment
  pub window : WorkInterval
