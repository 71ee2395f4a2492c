-- ===== src/UsageWindows/Rounds.antt =====
-- The loops of agent_collab/usage_windows.py end within the rounds that they are given.
use native.Mathlib.Nat.{lt-div-mul-add, suc-add}
use agent_collab.Base.{
  ℕ, zero, suc, ◌+◌, ◌-◌, ◌*◌, ◌/◌, ◌≤◌, ◌<◌, Bool, true, false, List, [], ◌∷◌, if◌then◌else◌, ltb,
  Result, ok, err, ◌>>=◌, ◌≡◌, refl, ap, arith,
}
use agent_collab.UsageWindows.{utc, Schedule, WorkInterval, UsageWindowAnchor}
use agent_collab.UsageWindows.Anchors.{
  resolve_local_datetime, is_anchor_base, while_before, anchor_round, anchors_from, anchor_rounds,
  start_naive, end_naive,
}

>>=-cong {u v} :
    {T : Type u} {S : Type v} (first : Result T) (f g : T → Result S)
    → ((t : T) → f t ≡ g t)
    → (first >>= f) ≡ (first >>= g)
>>=-cong (err raised) f g h = refl
>>=-cong (ok t) f g h = h t

while_before-over :
    (b : Bool) (next : Result (List UsageWindowAnchor)) → b ≡ false → while_before b next ≡ ok []
while_before-over b next h = rw h refl

-- A loop whose test fails is over; otherwise two that go on alike are alike.
while_before-cong :
    (b : Bool) (x y : Result (List UsageWindowAnchor))
    → (b ≡ true → x ≡ y)
    → while_before b x ≡ while_before b y
while_before-cong true x y h = h refl
while_before-cong false x y h = refl

anchor_round-cong :
    (s : Schedule) (window : WorkInterval) (seen : List ℕ) (naive : ℕ)
    (f g : List ℕ → Result (List UsageWindowAnchor))
    → ((seen : List ℕ) → f seen ≡ g seen)
    → anchor_round s window seen naive f ≡ anchor_round s window seen naive g
unfolding anchor_round
anchor_round-cong s window seen naive f g h =
    >>=-cong (resolve_local_datetime naive s.zone) _ _ (λ base.
      ap
        (λ r. r >>= (λ rest. ok (
          if is_anchor_base window seen base
          then record { base = base; window = window } ∷ rest
          else rest)))
        (h (if is_anchor_base window seen base then utc base ∷ seen else seen)))

not_before : (naive end : ℕ) → end ≤ naive → ltb naive end ≡ false
not_before naive end h = ground arith

module _ (s : Schedule) (window : WorkInterval) (end : ℕ) where
  anchors_from-over :
      (fuel : ℕ) (seen : List ℕ) (naive : ℕ)
      → end ≤ naive
      → anchors_from fuel s window seen naive end ≡ ok []
  unfolding anchors_from
  anchors_from-over zero seen naive h = refl
  anchors_from-over (suc fuel) seen naive h =
      while_before-over (ltb naive end) _ (not_before naive end h)

  reach :
      (fuel naive : ℕ)
      → end ≤ naive + suc fuel * s.interval
      → end ≤ naive + s.interval + fuel * s.interval
  reach fuel naive h = omega arith

  anchors_from-enough :
      (fuel more : ℕ) (seen : List ℕ) (naive : ℕ)
      → end ≤ naive + fuel * s.interval
      → anchors_from (fuel + more) s window seen naive end
        ≡ anchors_from fuel s window seen naive end
  unfolding anchors_from
  anchors_from-enough zero more seen naive h =
      anchors_from-over (zero + more) seen naive (omega arith)
  anchors_from-enough (suc fuel) more seen naive h = rw suc-add (
      while_before-cong (ltb naive end) _ _ (λ going.
        anchor_round-cong s window seen naive _ _
          (λ seen. anchors_from-enough fuel more seen (naive + s.interval) (reach fuel naive h))))

rounds_reach : (a b i : ℕ) → 0 < i → b ≤ a + suc ((b - a) / i) * i
rounds_reach a b i h = omega (arith, lt-div-mul-add {a = b - a} {b = i} h)

-- If the interval of a schedule is positive, then the loop over a day's anchors is over after the rounds
-- that it is given: any more of them change nothing.
pub anchor_rounds-enough :
    (s : Schedule) (window : WorkInterval) (local_day more : ℕ)
    → 0 < s.interval
    → anchors_from
        (anchor_rounds s local_day + more)
        s
        window
        []
        (start_naive s local_day)
        (end_naive s local_day)
      ≡ anchors_from
          (anchor_rounds s local_day)
          s
          window
          []
          (start_naive s local_day)
          (end_naive s local_day)
unfolding anchor_rounds
anchor_rounds-enough s window local_day more positive =
    anchors_from-enough s window (end_naive s local_day) (anchor_rounds s local_day) more []
      (start_naive s local_day)
      (rounds_reach (start_naive s local_day) (end_naive s local_day) s.interval positive)
