-- ===== src/Retention/Examples.antt =====
-- The theorems on retention, at concrete sessions.
use Prim.Native.String.{◌++◌ as ◌<>◌}
use agent_collab.Base.{
  ℕ, ◌+◌, ◌≤◌, String, ◌≡◌, refl, Option, none, some, List, [], ◌∷◌, All, length, min, ok, ◌==◌,
  if◌then◌else◌,
}
use agent_collab.Base.Text.{to_number, is_ascii_number}
use agent_collab.Base.Values.{null, str, pos}
use agent_collab.Retention.Durations.{microseconds_per_hour, timedelta_max, parse_duration}
use agent_collab.Retention.Selection.{Stored, Selection, candidates, select_expired_sessions}
use agent_collab.Retention.Transcripts.{classify_transcript_paths}
use agent_collab.Retention.Bounds.{parse_duration_bounds}
use agent_collab.Retention.Expiry.{
  StandsFor, select_expired_sessions-keep, select_expired_sessions-StandFor,
}
use agent_collab.Retention.Ownership.{IsOwned, classify_transcript_paths-IsOwned}

two_days : parse_duration (str " 2d ") ≡ ok 172800000000
unfolding parse_duration is_ascii_number
two_days = refl

parse_duration_bounds_example :
    (microseconds_per_hour ≤ 172800000000) × (172800000000 ≤ timedelta_max)
parse_duration_bounds_example = parse_duration_bounds (str " 2d ") 172800000000 two_days

-- Timestamps of the examples: plain numbers.
abbrev from_iso : String → Option ℕ
from_iso s = if is_ascii_number s then some (to_number 0 s) else none

abbrev session : String → String → String → Stored
session id status ended = record {
  session_id = id;
  status = status;
  ended_at = str ended;
  updated_at = null;
  jsonl_path = str ("logs/" <> (id <> ".jsonl"));
  markdown_path = str "elsewhere.md";
}

abbrev records : List Stored
records =
    session "a" "done" "10"
    ∷ session "b" "running" "1"
    ∷ session "c" "failed" "20"
    ∷ session "d" "stopped" "95"
    ∷ []

abbrev selection : Selection
selection = record {
  expired =
      record { session_id = "c"; status = "failed"; effective_at = 20 }
      ∷ record { session_id = "a"; status = "done"; effective_at = 10 }
      ∷ [];
  kept = [];
  skipped_no_timestamp = [];
}

selected : select_expired_sessions from_iso records 100 50 (pos 1) ≡ ok selection
unfolding select_expired_sessions is_ascii_number to_number
selected = refl

select_expired_sessions-keep_example :
    length selection.expired + min 1 (length (candidates from_iso records))
    ≤ length (candidates from_iso records)
select_expired_sessions-keep_example =
    select_expired_sessions-keep from_iso records 100 50 1 selection selected

select_expired_sessions-StandFor_example :
    All (λ c. StandsFor from_iso records c × (c.effective_at + 50 ≤ 100)) selection.expired
select_expired_sessions-StandFor_example =
    select_expired_sessions-StandFor from_iso records 100 50 1 selection selected

abbrev join : String → String → String
join dir name = dir <> ("/" <> name)

classify_transcript_paths-IsOwned_example :
    All
      (IsOwned (λ s. s) join (λ p q. p == q) "a" "logs")
      (classify_transcript_paths
        (λ s. s)
        join
        (λ p q. p == q)
        (session "a" "done" "10")
        "logs").deletable
classify_transcript_paths-IsOwned_example =
    classify_transcript_paths-IsOwned (λ s. s) join (λ p q. p == q) (session "a" "done" "10") "logs"
