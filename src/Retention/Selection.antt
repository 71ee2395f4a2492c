-- ===== src/Retention/Selection.antt =====
-- `effective_timestamp` and `select_expired_sessions` of agent_collab/retention.py.
use Prim.Native.Char.{code}
use Prim.Native.String.{[] as end, ◌∷◌ as ◌∷∷◌}
use agent_collab.Base.{
  ℕ, ◌-◌, String, Bool, true, false, not, ◌&&◌, ◌||◌, Option, none, some, List, [], ◌∷◌, map, take,
  select, if◌then◌else◌, ltb, leb, ◌=?◌, Result, ok, err, value_error, overflow_error,
}
use agent_collab.Base.Text.{is_truthy, member}
use agent_collab.Base.Values.{Value, str, ℤ, pos, negsuc}

-- What retention reads of a stored session record.
pub record Stored : Type 0 where
  pub session_id : String
  pub status : String
  pub ended_at : Value
  pub updated_at : Value
  pub jsonl_path : Value
  pub markdown_path : Value

-- RetentionCandidate
pub record Candidate : Type 0 where
  pub session_id : String
  pub status : String
  pub effective_at : ℕ

-- RetentionSelection
pub record Selection : Type 0 where
  pub expired : List Candidate
  pub kept : List Candidate
  pub skipped_no_timestamp : List String

-- `status in TERMINAL_STATUSES`
unfoldable pub is_terminal_name : String → Bool
is_terminal_name s = member s ("done" ∷ "failed" ∷ "stopped" ∷ "interrupted" ∷ [])

-- a < b of texts, by code points
unfoldable pub text_lt : String → String → Bool
text_lt end end = false
text_lt end (d ∷∷ t) = true
text_lt (c ∷∷ s) end = false
text_lt (c ∷∷ s) (d ∷∷ t) =
    let rest = text_lt s t in
    if ltb (code c) (code d) then true else if code c =? code d then rest else false

-- The key of `b` is below the key of `a`, where a key is (effective_at, session_id).
unfoldable pub is_after : Candidate → Candidate → Bool
unfolding text_lt
is_after a b =
    ltb b.effective_at a.effective_at
    || ((b.effective_at =? a.effective_at) && text_lt b.session_id a.session_id)

-- `sort(key=..., reverse=True)`, which keeps the order of equal keys
unfoldable pub insert_newest : Candidate → List Candidate → List Candidate
unfolding is_after
insert_newest c [] = c ∷ []
insert_newest c (d ∷ ds) =
    let rest = insert_newest c ds in if is_after d c then d ∷ rest else c ∷ d ∷ ds

unfoldable pub sort_newest : List Candidate → List Candidate
unfolding insert_newest
sort_newest [] = []
sort_newest (c ∷ cs) = insert_newest c (sort_newest cs)

abbrev pub is_past : ℕ → Candidate → Bool
is_past cutoff c = leb c.effective_at cutoff

abbrev pub is_protected : List String → Candidate → Bool
is_protected ids c = member c.session_id ids

-- The second loop, over the sorted candidates.
unfoldable pub partition : (cutoff keep : ℕ) → List Candidate → List String → Selection
partition cutoff keep terminal no_timestamp =
    let ids = map (λ c. c.session_id) (take keep terminal) in
    record {
      expired = select (λ c. is_past cutoff c && not (is_protected ids c)) terminal;
      kept = select (λ c. is_past cutoff c && is_protected ids c) terminal;
      skipped_no_timestamp = no_timestamp;
    }

-- `datetime.fromisoformat`, in UTC where the text names no offset
module _ (from_iso : String → Option ℕ) where
  -- parse_timestamp
  unfoldable pub parse_timestamp : Value → Option ℕ
  parse_timestamp (str s) = if is_truthy s then from_iso s else none
  parse_timestamp v = none

  abbrev pub or_timestamp : Option ℕ → Value → Option ℕ
  or_timestamp (some t) v = some t
  or_timestamp none v = parse_timestamp v

  -- effective_timestamp
  unfoldable pub effective_timestamp : Stored → Option ℕ
  unfolding parse_timestamp
  effective_timestamp r = or_timestamp (parse_timestamp r.ended_at) r.updated_at

  -- The first loop: the candidates, and the terminal records without a usable timestamp.
  unfoldable pub candidates : List Stored → List Candidate
  unfolding effective_timestamp is_terminal_name
  candidates [] = []
  candidates (r ∷ rs) =
      let rest = candidates rs in
      if is_terminal_name r.status
      then (elim (effective_timestamp r) [
        | none ↦ rest
        | some at ↦
            record { session_id = r.session_id; status = r.status; effective_at = at } ∷ rest
      ])
      else rest

  unfoldable pub skipped : List Stored → List String
  unfolding effective_timestamp is_terminal_name
  skipped [] = []
  skipped (r ∷ rs) =
      let rest = skipped rs in
      if is_terminal_name r.status
      then (elim (effective_timestamp r) [ none ↦ r.session_id ∷ rest | some at ↦ rest ])
      else rest

  -- select_expired_sessions. A cutoff before `datetime.min` is an OverflowError.
  unfoldable pub select_expired_sessions :
      List Stored → (now retention : ℕ) (keep : ℤ) → Result Selection
  unfolding candidates skipped sort_newest partition
  select_expired_sessions records now retention (negsuc k) = err value_error
  select_expired_sessions records now retention (pos keep) =
      if leb retention now
      then ok
          (partition (now - retention) keep (sort_newest (candidates records)) (skipped records))
      else err overflow_error
