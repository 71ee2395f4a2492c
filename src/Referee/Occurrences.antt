-- ===== src/Referee/Occurrences.antt =====
-- The turn ids of a parallel stage: they are new, and those of two members differ.
use agent_collab.Base.{
  ℕ, suc, ◌≤◌, String, ◌≡◌, refl, sym, subst, ap, ◌∙◌, true, false, Option, none, some, List, [],
  ◌∷◌, arith, ◌==◌, Bool-cases, inl, inr,
}
use agent_collab.Base.Dict.{get}
use agent_collab.Referee.Progress.{Progress, turn_id_of, allocate_occurrence}
use agent_collab.Referee.Numbering.{turn_id_of_inj}
use agent_collab.Referee.Parallel.{Phase, waiting, allocate_all}
use agent_collab.Referee.Members.{id_of, same_text}

-- The occurrences of a stage are new and differ from each other.
pub allocated_turns :
    (p : Progress) (members : List String)
    → ((allocate_all p members).1.turns ≡ p.turns) × ((allocate_all p members).1.trace ≡ p.trace)
unfolding allocate_all allocate_occurrence
allocated_turns p [] = (refl, refl)
allocated_turns p (m ∷ ms) = allocated_turns (record p { next_turn = suc p.next_turn }) ms

abbrev following : Progress → Progress
following p = record p { next_turn = suc p.next_turn }

first_phase :
    (p : Progress) (m : String) (ms : List String) (a : String)
    → (m == a) ≡ true
    → get (allocate_all p (m ∷ ms)).0 a ≡ some (waiting (turn_id_of p.next_turn))
unfolding allocate_all allocate_occurrence get
first_phase p m ms a k = rw k refl

later_phase :
    (p : Progress) (m : String) (ms : List String) (a : String)
    → (m == a) ≡ false
    → get (allocate_all p (m ∷ ms)).0 a ≡ get (allocate_all (following p) ms).0 a
unfolding allocate_all allocate_occurrence get
later_phase p m ms a k = rw k refl

first_id :
    (p : Progress) (m : String) (ms : List String) (a id : String)
    → (m == a) ≡ true
    → id_of (get (allocate_all p (m ∷ ms)).0 a) ≡ some id
    → id ≡ turn_id_of p.next_turn
first_id p m ms a id k e = cc (ap id_of (first_phase p m ms a k), e)

later_id :
    (p : Progress) (m : String) (ms : List String) (a id : String)
    → (m == a) ≡ false
    → id_of (get (allocate_all p (m ∷ ms)).0 a) ≡ some id
    → id_of (get (allocate_all (following p) ms).0 a) ≡ some id
later_id p m ms a id k e = sym (ap id_of (later_phase p m ms a k)) ∙ e

pub allocated_id :
    (p : Progress) (members : List String) (a id : String)
    → id_of (get (allocate_all p members).0 a) ≡ some id
    → (n : ℕ) × (id ≡ turn_id_of n) × (p.next_turn ≤ n)
unfolding allocate_all get
allocated_id p [] a id e = cc
allocated_id p (m ∷ ms) a id e = elim (Bool-cases (m == a)) [
  | inl k ↦ (p.next_turn, first_id p m ms a id k e, omega arith)
  | inr k ↦ later (allocated_id (following p) ms a id (later_id p m ms a id k e))
]
  where
    later :
        (n : ℕ) × (id ≡ turn_id_of n) × (suc p.next_turn ≤ n)
        → (n : ℕ) × (id ≡ turn_id_of n) × (p.next_turn ≤ n)
    later (n, named, bound) = (n, named, omega arith)

-- An id of the first occurrence is not one of the others.
first_only :
    (p : Progress) (m : String) (ms : List String) (a b id : String)
    → (m == a) ≡ true
    → (m == b) ≡ false
    → id_of (get (allocate_all p (m ∷ ms)).0 a) ≡ some id
    → id_of (get (allocate_all p (m ∷ ms)).0 b) ≡ some id
    → ⊥
first_only p m ms a b id ka kb ea eb =
    let (n, named, bound) = allocated_id (following p) ms b id (later_id p m ms b id kb eb) in
    let same : p.next_turn ≡ n =
      turn_id_of_inj p.next_turn n (sym (first_id p m ms a id ka ea) ∙ named) in
    omega (arith, same, bound)

pub allocated_apart :
    (p : Progress) (members : List String) (a b id : String)
    → id_of (get (allocate_all p members).0 a) ≡ some id
    → id_of (get (allocate_all p members).0 b) ≡ some id
    → (a == b) ≡ true
unfolding allocate_all get
allocated_apart p [] a b id ea eb = cc
allocated_apart p (m ∷ ms) a b id ea eb = elim (Bool-cases (m == a)) [
  | inl ka ↦ elim (Bool-cases (m == b)) [
    | inl kb ↦ subst (λ x. (x == b) ≡ true) (same_text m a ka) kb
    | inr kb ↦ absurd (first_only p m ms a b id ka kb ea eb)
  ]
  | inr ka ↦ elim (Bool-cases (m == b)) [
    | inl kb ↦ absurd (first_only p m ms b a id kb ka eb ea)
    | inr kb ↦
        allocated_apart (following p) ms a b id (later_id p m ms a id ka ea)
          (later_id p m ms b id kb eb)
  ]
]

-- No member of a new stage is done.
pub allocated_waits :
    {X : Type 0} (f : Option Phase → X) (x : X)
    → f none ≡ x
    → ((id : String) → f (some (waiting id)) ≡ x)
    → (p : Progress) (members : List String) (a : String) → f (get (allocate_all p members).0 a) ≡ x
unfolding allocate_all get
allocated_waits f x e w p [] a = e
allocated_waits f x e w p (m ∷ ms) a = elim (Bool-cases (m == a)) [
  | inl k ↦ ap f (first_phase p m ms a k) ∙ w (turn_id_of p.next_turn)
  | inr k ↦ ap f (later_phase p m ms a k) ∙ allocated_waits f x e w (following p) ms a
]
