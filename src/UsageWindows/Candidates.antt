-- ===== src/UsageWindows/Candidates.antt =====
-- The candidate anchors of agent_collab/usage_windows.py lie in their work intervals, in order.
use agent_collab.Base.{
  ok_same, ℕ, zero, suc, ◌+◌, ◌-◌, Bool, true, false, ◌&&◌, List, [], ◌∷◌, ◌++◌, all, if◌then◌else◌,
  ltb, leb, Result, ok, >>=-eq-ok, ◌≡◌, refl, subst, arith, ◌∙◌, ap,
}
use agent_collab.UsageWindows.{Moment, utc, Schedule, WorkInterval, UsageWindowAnchor}
use agent_collab.UsageWindows.Anchors.{
  resolve_local_datetime, work_interval_for_day, is_anchor_base, while_before, anchor_round,
  anchors_from, anchor_rounds, start_naive, end_naive, anchors_for_day, is_eligible_day,
  candidates_from, insert_anchor, sort_anchors, local_date, candidate_anchors,
}

-- An anchor in its work interval.
abbrev pub is_inside : UsageWindowAnchor → Bool
is_inside a = leb (utc a.window.start) (utc a.base) && ltb (utc a.base) (utc a.window.end)

-- The anchors come in the order of their instants.
abbrev pub is_sorted : List UsageWindowAnchor → Bool
is_sorted [] = true
is_sorted (a ∷ []) = true
is_sorted (a ∷ b ∷ bs) = leb (utc a.base) (utc b.base) && is_sorted (b ∷ bs)

all-append {ℓ} :
    {A : Type ℓ} (p : A → Bool) (xs ys : List A)
    → all p xs ≡ true
    → all p ys ≡ true
    → all p (xs ++ ys) ≡ true
all-append p [] ys h g = g
all-append p (x ∷ xs) ys h g = ground (arith, all-append p xs ys)

-- The anchors that the loop puts in front of the rest.
if-inside :
    (b : Bool) (a : UsageWindowAnchor) (rest : List UsageWindowAnchor)
    → (b ≡ true → is_inside a ≡ true)
    → all is_inside rest ≡ true
    → all is_inside (if b then a ∷ rest else rest) ≡ true
if-inside true a rest h g = rw (h refl) g
if-inside false a rest h g = g

is_anchor_base-inside :
    (window : WorkInterval) (seen : List ℕ) (base : Moment)
    → is_anchor_base window seen base ≡ true
    → is_inside record { base = base; window = window } ≡ true
unfolding is_anchor_base
is_anchor_base-inside window seen base h = ground arith

while_before-all :
    (p : UsageWindowAnchor → Bool) (b : Bool) (next : Result (List UsageWindowAnchor))
    (anchors : List UsageWindowAnchor)
    → while_before b next ≡ ok anchors
    → (next ≡ ok anchors → all p anchors ≡ true)
    → all p anchors ≡ true
while_before-all p true next anchors h f = f h
while_before-all p false next anchors h f = subst (λ l. all p l ≡ true) (ok_same [] anchors h) refl

module _ (s : Schedule) where
  anchors_from-inside :
      (fuel : ℕ) (window : WorkInterval) (seen : List ℕ) (naive end : ℕ)
      (anchors : List UsageWindowAnchor)
      → anchors_from fuel s window seen naive end ≡ ok anchors
      → all is_inside anchors ≡ true
  unfolding anchors_from anchor_round
  anchors_from-inside zero window seen naive end anchors h =
      subst (λ l. all is_inside l ≡ true) (ok_same [] anchors h) refl
  anchors_from-inside (suc fuel) window seen naive end anchors h =
      while_before-all is_inside (ltb naive end) _ anchors h (λ g.
        let (base, e, more) = >>=-eq-ok (resolve_local_datetime naive s.zone) _ g in
        let is_base = is_anchor_base window seen base in
        let next_seen = if is_base then utc base ∷ seen else seen in
        let (rest, found, last) =
          >>=-eq-ok (anchors_from fuel s window next_seen (naive + s.interval) end) _ more in
        let inside =
          anchors_from-inside fuel window next_seen (naive + s.interval) end rest found in
        subst (λ l. all is_inside l ≡ true) (ok_same _ anchors last)
          (if-inside is_base _ rest (is_anchor_base-inside window seen base) inside))

  anchors_for_day-inside :
      (day : ℕ) (anchors : List UsageWindowAnchor)
      → anchors_for_day s day ≡ ok anchors
      → all is_inside anchors ≡ true
  unfolding anchors_for_day
  anchors_for_day-inside day anchors h =
      let (window, e, more) = >>=-eq-ok (work_interval_for_day s day) _ h in
      anchors_from-inside (anchor_rounds s day) window [] (start_naive s day) (end_naive s day)
        anchors more

  today-inside :
      (eligible : Bool) (day : ℕ) (anchors : List UsageWindowAnchor)
      → (if eligible then anchors_for_day s day else ok []) ≡ ok anchors
      → all is_inside anchors ≡ true
  today-inside true day anchors h = anchors_for_day-inside day anchors h
  today-inside false day anchors h = subst (λ l. all is_inside l ≡ true) (ok_same [] anchors h) refl

  candidates_from-inside :
      (count day : ℕ) (anchors : List UsageWindowAnchor)
      → candidates_from count day s ≡ ok anchors
      → all is_inside anchors ≡ true
  unfolding candidates_from
  candidates_from-inside zero day anchors h =
      subst (λ l. all is_inside l ≡ true) (ok_same [] anchors h) refl
  candidates_from-inside (suc count) day anchors h =
      let (eligible, e, more) = >>=-eq-ok (is_eligible_day day s.days) _ h in
      let (today, et, tail) =
        >>=-eq-ok (if eligible then anchors_for_day s day else ok []) _ more in
      let (rest, er, last) = >>=-eq-ok (candidates_from count (suc day) s) _ tail in
      subst (λ l. all is_inside l ≡ true) (ok_same _ anchors last)
        (all-append is_inside today rest (today-inside eligible day today et)
          (candidates_from-inside count (suc day) rest er))

insert_anchor-inside :
    (a : UsageWindowAnchor) (anchors : List UsageWindowAnchor)
    → all is_inside (insert_anchor a anchors) ≡ (is_inside a && all is_inside anchors)
unfolding insert_anchor
insert_anchor-inside a [] = refl
insert_anchor-inside a (b ∷ bs) = ground (arith, insert_anchor-inside a bs)

sort_anchors-inside :
    (anchors : List UsageWindowAnchor)
    → all is_inside (sort_anchors anchors) ≡ all is_inside anchors
unfolding sort_anchors
sort_anchors-inside [] = refl
sort_anchors-inside (a ∷ rest) =
    insert_anchor-inside a (sort_anchors rest)
    ∙ ap (λ b. is_inside a && b) (sort_anchors-inside rest)

-- Inserting before a list whose first anchor is not earlier.
insert_anchor-sorted :
    (a : UsageWindowAnchor) (anchors : List UsageWindowAnchor)
    → is_sorted anchors ≡ true
    → is_sorted (insert_anchor a anchors) ≡ true
unfolding insert_anchor
insert_anchor-sorted a [] h = refl
insert_anchor-sorted a (b ∷ []) h = ground arith
insert_anchor-sorted a (b ∷ c ∷ cs) h = ground (arith, insert_anchor-sorted a (c ∷ cs))

sort_anchors-sorted : (anchors : List UsageWindowAnchor) → is_sorted (sort_anchors anchors) ≡ true
unfolding sort_anchors
sort_anchors-sorted [] = refl
sort_anchors-sorted (a ∷ rest) =
    insert_anchor-sorted a (sort_anchors rest) (sort_anchors-sorted rest)

-- Where the candidate anchors are found, each has its base in its work interval, whose end is not part
-- of it, and they come in the order of their instants.
pub candidate_anchors-inside :
    (s : Schedule) (now : Moment) (anchors : List UsageWindowAnchor)
    → candidate_anchors s now ≡ ok anchors
    → (all is_inside anchors ≡ true) × (is_sorted anchors ≡ true)
unfolding candidate_anchors
candidate_anchors-inside s now anchors h =
    let (found, e, last) = >>=-eq-ok (candidates_from 24 (local_date s now - 8) s) _ h in
    subst (λ l. (all is_inside l ≡ true) × (is_sorted l ≡ true)) (ok_same _ anchors last)
      (
        sort_anchors-inside found ∙ candidates_from-inside s 24 (local_date s now - 8) found e,
        sort_anchors-sorted found,
      )
