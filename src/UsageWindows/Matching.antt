-- ===== src/UsageWindows/Matching.antt =====
-- The anchors of a plan of agent_collab/usage_windows.py are found again by their instants.
use agent_collab.Base.{
  ℕ, suc, String, Bool, true, false, ◌&&◌, ◌||◌, none, some, List, [], ◌∷◌, select, All,
  if◌then◌else◌, ltb, ◌=?◌, ◌≡◌, refl, subst, arith, =?_iff,
}
use agent_collab.UsageWindows.{Moment, utc, Schedule, UsageWindowAnchor}
use agent_collab.UsageWindows.Planning.{last_hit, first_hit, jitter_anchor}
use agent_collab.UsageWindows.Futures.{
  Future, skip_one, is_base_past, is_opened, next_future_jittered_plan,
}

-- The first of the hits is of an instant; an anchor of this instant is found.
abbrev pub IsFound : List UsageWindowAnchor → (instant : ℕ) → Type 0
IsFound hits t = (m : UsageWindowAnchor) × (first_hit hits ≡ some m) × (utc m.base ≡ t)

abbrev pub HasMatch : List UsageWindowAnchor → (instant : ℕ) → Type 0
HasMatch anchors t = IsFound (select (λ a. utc a.base =? t) anchors) t

abbrev pub IsMatched : List UsageWindowAnchor → UsageWindowAnchor → Type 0
IsMatched anchors a = HasMatch anchors (utc a.base)

-- What holds of both branches holds of a conditional.
pub if-both {ℓ κ} :
    {A : Type ℓ} (P : A → Type κ) (b : Bool) (x y : A) → P x → P y → P (if b then x else y)
if-both P true x y p q = p
if-both P false x y p q = q

pub if-case {ℓ κ} :
    {A : Type ℓ} (P : A → Type κ) (b : Bool) (x y : A)
    → (b ≡ true → P x)
    → P y
    → P (if b then x else y)
if-case P true x y p q = p refl
if-case P false x y p q = q

if-IsFound :
    (b : Bool) (x : UsageWindowAnchor) (hits : List UsageWindowAnchor) (t : ℕ)
    → (b ≡ true → utc x.base ≡ t)
    → IsFound hits t
    → IsFound (if b then x ∷ hits else hits) t
if-IsFound true x hits t same found = (x, refl, same refl)
if-IsFound false x hits t same found = found

HasMatch-cons :
    (x : UsageWindowAnchor) (anchors : List UsageWindowAnchor) (t : ℕ)
    → HasMatch anchors t
    → HasMatch (x ∷ anchors) t
HasMatch-cons x anchors t found = if-IsFound (utc x.base =? t) x _ t (=?_iff (utc x.base) t).0 found

is_itself : (n : ℕ) → (n =? n) ≡ true
is_itself n = ground arith

HasMatch-head :
    (x : UsageWindowAnchor) (anchors : List UsageWindowAnchor) → HasMatch (x ∷ anchors) (utc x.base)
HasMatch-head x anchors = (x, rw (is_itself (utc x.base)) refl, refl)

module _ {ℓ κ} {A : Type ℓ} {P Q : A → Type κ} where
  All-imp : (xs : List A) → ((x : A) → P x → Q x) → All P xs → All Q xs
  All-imp [] f ps = tt
  All-imp (x ∷ xs) f (p, ps) = (f x p, All-imp xs f ps)

pub some_same {ℓ} : {A : Type ℓ} (x y : A) → some x ≡ some y → x ≡ y
some_same x y h = cc

module _ {ℓ κ} {A : Type ℓ} (P : A → Type κ) where
  pub All-select : (test : A → Bool) (xs : List A) → All P xs → All P (select test xs)
  All-select test [] ps = tt
  All-select test (x ∷ xs) (p, ps) =
      if-both (All P) (test x) _ _ (p, All-select test xs ps) (All-select test xs ps)

  pub All-last_hit : (xs : List A) (x : A) → All P xs → last_hit xs ≡ some x → P x
  All-last_hit [] y ps h = cc
  All-last_hit (x ∷ []) y (p, ps) h = subst P (some_same x y h) p
  All-last_hit (x ∷ z ∷ zs) y (p, ps) h = All-last_hit (z ∷ zs) y ps h

pub all-IsMatched : (anchors : List UsageWindowAnchor) → All (IsMatched anchors) anchors
all-IsMatched [] = tt
all-IsMatched (x ∷ anchors) = (
  HasMatch-head x anchors,
  All-imp anchors (λ a. HasMatch-cons x anchors (utc a.base)) (all-IsMatched anchors),
)

abbrev pub FutureIs : (UsageWindowAnchor → Type 0) → Future → Type 0
FutureIs P (none, skipped) = Unit
FutureIs P (some (a, planned), skipped) = P a

skip_one-FutureIs :
    (P : UsageWindowAnchor → Type 0) (f : Future) → FutureIs P f → FutureIs P (skip_one f)
skip_one-FutureIs P (none, skipped) h = h
skip_one-FutureIs P (some (a, planned), skipped) h = h

module _ (iso : Moment → String) (uniform : (round span : ℕ) → ℕ) (s : Schedule) (now : Moment)
    (P : UsageWindowAnchor → Type 0) where
  pub next_future_jittered_plan-FutureIs :
      (unopened : Bool) (round : ℕ) (anchors : List UsageWindowAnchor)
      → All P anchors
      → FutureIs P (next_future_jittered_plan iso uniform s now unopened round anchors)
  unfolding next_future_jittered_plan
  next_future_jittered_plan-FutureIs unopened round [] ps = tt
  next_future_jittered_plan-FutureIs unopened round (a ∷ anchors) (p, ps) =
      let next_round =
        if is_base_past iso uniform s now a || (unopened && is_opened iso uniform s now a)
        then round
        else suc round in
      let rest = next_future_jittered_plan iso uniform s now unopened next_round anchors in
      let later = next_future_jittered_plan-FutureIs unopened next_round anchors ps in
      let skipped = skip_one-FutureIs P rest later in
      if-both (FutureIs P) (is_base_past iso uniform s now a) _ _ later (
        if-both (FutureIs P)
          (is_base_past iso uniform s now a || (unopened && is_opened iso uniform s now a)) _ _
          skipped
          (if-both (FutureIs P) (ltb (utc now) (utc (jitter_anchor (uniform round) s.jitter a))) _ _
            p skipped))

if-found :
    (b : Bool) (x m : UsageWindowAnchor) (hits : List UsageWindowAnchor) (t : ℕ)
    → (b ≡ true → utc x.base ≡ t)
    → (first_hit hits ≡ some m → utc m.base ≡ t)
    → first_hit (if b then x ∷ hits else hits) ≡ some m
    → utc m.base ≡ t
if-found true x m hits t same rest h = subst (λ a. utc a.base ≡ t) (some_same x m h) (same refl)
if-found false x m hits t same rest h = rest h

pub found-same :
    (anchors : List UsageWindowAnchor) (t : ℕ) (m : UsageWindowAnchor)
    → first_hit (select (λ a. utc a.base =? t) anchors) ≡ some m
    → utc m.base ≡ t
found-same [] t m h = cc
found-same (x ∷ anchors) t m h =
    if-found (utc x.base =? t) x m _ t (=?_iff (utc x.base) t).0 (found-same anchors t m) h
