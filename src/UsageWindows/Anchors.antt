-- ===== src/UsageWindows/Anchors.antt =====
-- The anchors of a schedule: resolve_local_datetime, work_interval_for_day, anchors_for_day,
-- _candidate_anchors and current_work_interval of agent_collab/usage_windows.py.
use agent_collab.Base.{
  ℕ, zero, suc, ◌+◌, ◌-◌, ◌*◌, ◌/◌, ◌%◌, String, Bool, true, false, not, ◌&&◌, Option, none, some,
  List, [], ◌∷◌, ◌++◌, any, if◌then◌else◌, ltb, leb, ◌=?◌, ◌==◌, Result, ok, err, value_error,
  key_error, ◌>>=◌,
}
use agent_collab.UsageWindows.{
  Zone, Moment, utc, at_instant, Schedule, WorkInterval, UsageWindowAnchor, day_length, minute,
}

-- DAY_INDEX[name]
unfoldable pub day_index : String → Result ℕ
day_index name =
    if name == "mon"
    then ok 0
    else if name == "tue"
    then ok 1
    else if name == "wed"
    then ok 2
    else if name == "thu"
    then ok 3
    else if name == "fri"
    then ok 4
    else if name == "sat"
    then ok 5
    else if name == "sun"
    then ok 6
    else err key_error

unfoldable pub day_indices : List String → Result (List ℕ)
unfolding day_index
day_indices [] = ok []
day_indices (name ∷ names) = do i ← day_index name; rest ← day_indices names; ok (i ∷ rest)

-- _eligible_day
unfoldable pub is_eligible_day : (day : ℕ) → List String → Result Bool
unfolding day_indices
is_eligible_day day names = do indices ← day_indices names; ok (any (λ i. i =? day % 7) indices)

-- One round of the loop of _valid_local_candidates: `aware`, unless no instant has this wall time.
abbrev pub aware : ℕ → Zone → (fold : Bool) → Moment
aware naive zone fold = record { wall = naive; fold = fold; zone = zone }

unfoldable pub is_valid_local : ℕ → Zone → (fold : Bool) → Bool
unfolding utc at_instant
is_valid_local naive zone fold = (at_instant zone (utc (aware naive zone fold))).wall =? naive

-- The first of the sorted candidates of _valid_local_candidates. Of two with one instant the first counts.
unfoldable pub first_valid_local : ℕ → Zone → Option Moment
unfolding is_valid_local utc
first_valid_local naive zone =
    let first = aware naive zone false in
    let second = aware naive zone true in
    if is_valid_local naive zone false
    then (if is_valid_local naive zone true && ltb (utc second) (utc first)
        then some second
        else some first)
    else if is_valid_local naive zone true
    then some second
    else none

-- resolve_local_datetime, with the minutes left to try
unfoldable pub resolve_within : (minutes : ℕ) → ℕ → Zone → Result Moment
unfolding first_valid_local
resolve_within zero naive zone = err value_error
resolve_within (suc minutes) naive zone =
    let later = resolve_within minutes (naive + minute) zone in
    elim (first_valid_local naive zone) [ none ↦ later | some m ↦ ok m ]

unfoldable pub resolve_local_datetime : ℕ → Zone → Result Moment
unfolding resolve_within
resolve_local_datetime naive zone = resolve_within 2881 naive zone

-- `start_naive` and `end_naive`
unfoldable pub start_naive : Schedule → (local_day : ℕ) → ℕ
start_naive s day = day * day_length + s.start

unfoldable pub end_naive : Schedule → (local_day : ℕ) → ℕ
end_naive s day = (if leb s.end s.start then suc day else day) * day_length + s.end

unfoldable pub work_interval_for_day : Schedule → (local_day : ℕ) → Result WorkInterval
unfolding resolve_local_datetime start_naive end_naive
work_interval_for_day s day = do
  start ← resolve_local_datetime (start_naive s day) s.zone
  end ← resolve_local_datetime (end_naive s day) s.zone
  ok record { local_day = day; start = start; end = end }

-- The test on a base in anchors_for_day.
unfoldable pub is_anchor_base : WorkInterval → (seen_instants : List ℕ) → Moment → Bool
unfolding utc
is_anchor_base window seen base =
    not (any (λ t. t =? utc base) seen)
    && leb (utc window.start) (utc base)
    && ltb (utc base) (utc window.end)

-- The loop of anchors_for_day, on as many rounds as it makes.
abbrev pub while_before : Bool → Result (List UsageWindowAnchor) → Result (List UsageWindowAnchor)
while_before false next = ok []
while_before true next = next

-- One round of it; `next` goes on with the seen instants.
unfoldable pub anchor_round :
    Schedule
    → WorkInterval
    → (seen_instants : List ℕ) → (naive : ℕ) → (next : List ℕ → Result (List UsageWindowAnchor))
    → Result (List UsageWindowAnchor)
unfolding resolve_local_datetime is_anchor_base
anchor_round s window seen naive next = do
  base ← resolve_local_datetime naive s.zone
  let is_base = is_anchor_base window seen base in
      do
        rest ← next (if is_base then utc base ∷ seen else seen)
        ok (if is_base then record { base = base; window = window } ∷ rest else rest)

unfoldable pub anchors_from :
    (fuel : ℕ)
    → Schedule
    → WorkInterval
    → (seen_instants : List ℕ) → (naive end : ℕ) → Result (List UsageWindowAnchor)
anchors_from zero s window seen naive end = ok []
anchors_from (suc fuel) s window seen naive end = while_before (ltb naive end) (
    anchor_round s window seen naive
      (λ seen. anchors_from fuel s window seen (naive + s.interval) end))

-- How often the loop of anchors_for_day goes round.
unfoldable pub anchor_rounds : Schedule → (local_day : ℕ) → ℕ
unfolding start_naive end_naive
anchor_rounds s day = suc ((end_naive s day - start_naive s day) / s.interval)

unfoldable pub anchors_for_day : Schedule → (local_day : ℕ) → Result (List UsageWindowAnchor)
unfolding work_interval_for_day anchors_from anchor_round anchor_rounds
anchors_for_day s day = do
  window ← work_interval_for_day s day
  anchors_from (anchor_rounds s day) s window [] (start_naive s day) (end_naive s day)

-- The loop of _candidate_anchors over `count` days.
unfoldable pub candidates_from : (count day : ℕ) → Schedule → Result (List UsageWindowAnchor)
unfolding is_eligible_day anchors_for_day
candidates_from zero day s = ok []
candidates_from (suc count) day s = do
  eligible ← is_eligible_day day s.days
  today ← if eligible then anchors_for_day s day else ok []
  rest ← candidates_from count (suc day) s
  ok (today ++ rest)

-- result.sort(key=base in UTC)
unfoldable pub insert_anchor : UsageWindowAnchor → List UsageWindowAnchor → List UsageWindowAnchor
unfolding utc
insert_anchor a [] = a ∷ []
insert_anchor a (b ∷ bs) =
    let rest = insert_anchor a bs in if leb (utc a.base) (utc b.base) then a ∷ b ∷ bs else b ∷ rest

unfoldable pub sort_anchors : List UsageWindowAnchor → List UsageWindowAnchor
unfolding insert_anchor
sort_anchors [] = []
sort_anchors (a ∷ rest) = insert_anchor a (sort_anchors rest)

-- now.astimezone(zone).date()
unfoldable pub local_date : Schedule → (now : Moment) → ℕ
unfolding utc at_instant
local_date s now = (at_instant s.zone (utc now)).wall / day_length

unfoldable pub candidate_anchors : Schedule → (now : Moment) → Result (List UsageWindowAnchor)
unfolding candidates_from sort_anchors local_date
candidate_anchors s now = do
  anchors ← candidates_from 24 (local_date s now - 8) s
  ok (sort_anchors anchors)

-- current_work_interval
unfoldable pub holds_instant : WorkInterval → ℕ → Bool
unfolding utc
holds_instant window t = leb (utc window.start) t && ltb t (utc window.end)

abbrev pub if_holding :
    ℕ → WorkInterval → Result (Option WorkInterval) → Result (Option WorkInterval)
if_holding t window next = if holds_instant window t then ok (some window) else next

unfoldable pub current_on :
    Schedule → ℕ → (day : ℕ) → Result (Option WorkInterval) → Result (Option WorkInterval)
unfolding is_eligible_day work_interval_for_day
current_on s t day next = do
  eligible ← is_eligible_day day s.days
  if eligible then work_interval_for_day s day >>= (λ window. if_holding t window next) else next

unfoldable pub current_work_interval : Schedule → (now : Moment) → Result (Option WorkInterval)
unfolding current_on local_date utc
current_work_interval s now =
    current_on s (utc now) (local_date s now - 1)
      (current_on s (utc now) (local_date s now) (ok none))
