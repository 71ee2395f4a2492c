-- ===== src/Sessions/Agreement.antt =====
-- Where the reconstruction of the answers stands while the turns of a session go on: what begins and
-- what is said keep it in agreement with the live session.
use agent_collab.Base.{
  ℕ, ◌+◌, ◌≤◌, String, ◌≡◌, refl, sym, ap, subst, ◌∙◌, Bool, true, false, ◌&&◌, Option, none, some,
  List, [], ◌∷◌, ◌++◌, map, length, length-append, arith, if◌then◌else◌, ◌==◌, eq_iff, eq_refl,
  Bool-cases, inl, inr,
}
use agent_collab.Base.Text.{is_truthy}
use agent_collab.Base.Dict.{Dict, get, put, get-put, get-put_same}
use agent_collab.Events.{Event}
use agent_collab.Sessions.{Answer}
use agent_collab.Sessions.Answers.{
  is_message, is_final, is_agent, is_answer, first_of_two, AgentAnswer, shown_answer, Slot, Derived,
  raw_outcome, chosen, note_for, answer_slot, step_for, slot_or_new, note_message, derive_step,
  derive_from,
}
use agent_collab.Sessions.Turns.{Trace, begin_turn, emit}
use agent_collab.Sessions.Spans.{answer_of, Found, note, said, said-append, said_nothing}

derive_from-append :
    (d : Derived) (i : ℕ) (es : List Event) (e : Event)
    → derive_from d i (es ++ e ∷ []) ≡ derive_step (derive_from d i es) (i + length es) e
unfolding derive_from
derive_from-append d i [] e = ap (λ k. derive_step d k e) (omega arith)
derive_from-append d i (x ∷ es) e =
    derive_from-append (derive_step d i x) (i + 1) es e
    ∙ ap (λ k. derive_step (derive_from (derive_step d i x) (i + 1) es) k e) (omega arith)

-- What the reconstruction holds after a log.
abbrev pub derived : List Event → Derived
derived es = derive_from (record { ledger = []; pending = [] }) 0 es

pub derived-append :
    (es : List Event) (e : Event) → derived (es ++ e ∷ []) ≡ derive_step (derived es) (length es) e
derived-append es e =
    derive_from-append _ 0 es e ∙ ap (λ k. derive_step (derived es) k e) (omega arith)

abbrev pub shown : String → Option Answer → Option AgentAnswer
shown agent none = none
shown agent (some a) = some (shown_answer agent a)

-- The slot of an agent that said what was found.
abbrev pub slot_of : String → Found → Option Slot
slot_of agent (none, none) = none
slot_of agent (some a, f) =
    some (record { last = some (shown_answer agent a); final = shown agent f })
slot_of agent (none, some f) = some (record { last = none; final = some (shown_answer agent f) })

abbrev pub span_slot : String → List Event → Option ℕ → Option Slot
span_slot agent transcript none = none
span_slot agent transcript (some n) = slot_of agent (said agent n transcript)

abbrev pub shown_ledger : Dict Answer → Dict AgentAnswer
shown_ledger l = map (λ e. (e.0, shown_answer e.0 e.1)) l

-- The reconstruction and the live session agree.
pub record Agrees (t : Trace) : Type 0 where
  pub ledgers : (derived t.transcript).ledger ≡ shown_ledger t.ledger
  pub slots :
      (a : String)
      → is_truthy a ≡ true
      → get (derived t.transcript).pending a ≡ span_slot a t.transcript (get t.active a)
  pub starts : (a : String) (n : ℕ) → get t.active a ≡ some n → n ≤ length t.transcript

pub put-shown_ledger :
    (l : Dict Answer) (k : String) (x : Answer)
    → put (shown_ledger l) k (shown_answer k x) ≡ shown_ledger (put l k x)
unfolding put
put-shown_ledger [] k x = refl
put-shown_ledger ((j, y) ∷ l) k x = elim (Bool-cases (j == k)) [
  | inl e ↦ rw e (ap (λ i. (j, shown_answer i x) ∷ shown_ledger l) (ground (arith, eq_iff j k)))
  | inr e ↦ rw e (ap (λ r. (j, shown_answer j y) ∷ r) (put-shown_ledger l k x))
]

pub chosen-slot_of :
    (a : String) (f : Found) → chosen (slot_of a f) ≡ shown a (first_of_two f.1 f.0)
chosen-slot_of a (none, none) = refl
chosen-slot_of a (none, some f) = refl
chosen-slot_of a (some x, none) = refl
chosen-slot_of a (some x, some f) = refl

noted_slot :
    (a : String) (i : ℕ) (e : Event) (f : Found)
    → is_answer a e ≡ true
    → some (answer_slot a i e (slot_of a f)) ≡ slot_of a (note a i e f)
noted_slot a i e f h = elim (Bool-cases (is_final e.raw)) [
  | inl y ↦ rw (h, y) refl
  | inr n ↦ rw (h, n) (kept f)
]
  where
    kept :
        (f : Found)
        → some (record {
          last = some (shown_answer a (answer_of i e));
          final = (slot_or_new (slot_of a f)).final;
        })
          ≡ slot_of a (some (answer_of i e), f.1)
    kept (none, none) = refl
    kept (none, some g) = refl
    kept (some x, none) = refl
    kept (some x, some g) = refl

-- An event that is no answer of the agent leaves its slot alone.
pub quiet :
    (a : String) (tr : List Event) (e : Event) (o : Option ℕ)
    → ((n : ℕ) → o ≡ some n → n ≤ length tr)
    → is_answer a e ≡ false
    → span_slot a (tr ++ e ∷ []) o ≡ span_slot a tr o
quiet a tr e none s h = refl
quiet a tr e (some n) s h = ap (slot_of a) (said-append a n tr e (s n refl) ∙ rw h refl)

pub begins-Agrees :
    (t : Trace) (a : String) → get t.active a ≡ none → Agrees t → Agrees (begin_turn t a)
unfolding begin_turn
begins-Agrees t a free h = record {
  ledgers = h.ledgers;
  slots = λ b tb. elim (Bool-cases (a == b)) [
    | inr n ↦
        h.slots b tb
        ∙ ap (span_slot b t.transcript)
            (sym (get-put t.active a b (length t.transcript) ∙ rw n refl))
    | inl y ↦
        h.slots b tb
        ∙ ap (span_slot b t.transcript) (subst (λ c. get t.active c ≡ none) ((eq_iff a b).0 y) free)
        ∙ sym (ap (slot_of b) (said_nothing b t.transcript))
        ∙ ap (span_slot b t.transcript) (sym (get-put_same t.active a b (length t.transcript) y))
  ];
  starts = λ b n e. ground (arith, get-put t.active a b (length t.transcript), h.starts b n);
}

note_for-ledger :
    (d : Derived) (i : ℕ) (e : Event) (o : Option String) → (note_for d i e o).ledger ≡ d.ledger
unfolding note_for
note_for-ledger d i e none = refl
note_for-ledger d i e (some b) = ground arith

note_nobody :
    (d : Derived) (i : ℕ) (e : Event) (a : String)
    → get (note_for d i e none).pending a ≡ get d.pending a
unfolding note_for
note_nobody d i e a = refl

note_own :
    (d : Derived) (i : ℕ) (e : Event) (a : String)
    → is_truthy a ≡ true
    → get (note_for d i e (some a)).pending a
      ≡ (if is_message e then some (answer_slot a i e (get d.pending a)) else get d.pending a)
unfolding note_for
note_own d i e a ta = elim (Bool-cases (is_message e)) [
  | inl m ↦
      rw (ta, m) (get-put d.pending a a (answer_slot a i e (get d.pending a)) ∙ rw (eq_refl a) refl)
  | inr m ↦ rw (ta, m) refl
]

note_other :
    (d : Derived) (i : ℕ) (e : Event) (b a : String)
    → (b == a) ≡ false
    → get (note_for d i e (some b)).pending a ≡ get d.pending a
unfolding note_for
note_other d i e b a n = elim (Bool-cases (is_truthy b && is_message e)) [
  | inl y ↦ rw y (get-put d.pending b a (answer_slot b i e (get d.pending b)) ∙ rw n refl)
  | inr y ↦ rw y refl
]

note_for-pending :
    (d : Derived) (i : ℕ) (e : Event) (o : Option String) (a : String)
    → is_truthy a ≡ true
    → get (note_for d i e o).pending a ≡ (
        if is_agent o a && is_message e
        then some (answer_slot a i e (get d.pending a))
        else get d.pending a)
note_for-pending d i e none a ta = note_nobody d i e a
note_for-pending d i e (some b) a ta = elim (Bool-cases (b == a)) [
  | inr n ↦ rw n (note_other d i e b a n)
  | inl y ↦ rw y (
      subst
        (λ c.
          get (note_for d i e (some c)).pending a
          ≡ (if is_message e then some (answer_slot a i e (get d.pending a)) else get d.pending a))
        (sym ((eq_iff b a).0 y)) (note_own d i e a ta))
]

step_note :
    (d : Derived) (i : ℕ) (e : Event)
    → raw_outcome e.raw ≡ none
    → derive_step d i e ≡ note_for d i e e.agent_id
unfolding derive_step step_for note_message
step_note d i e h = rw h refl

speaker :
    (o : Option String) (a : String) (m : Bool)
    → (is_agent o a && m) ≡ true
    → (o ≡ some a) × (m ≡ true)
speaker none a m h = cc
speaker (some b) a m h = (ground (arith, eq_iff b a), ground arith)

answer_by :
    (a : String) (e : Event) → is_answer a e ≡ true → (e.agent_id ≡ some a) × (is_message e ≡ true)
unfolding is_answer
answer_by a e h = speaker e.agent_id a (is_message e) h

pub starts_later :
    (t : Trace) (e : Event)
    → ((a : String) (n : ℕ) → get t.active a ≡ some n → n ≤ length t.transcript)
    → (a : String) (n : ℕ) → get t.active a ≡ some n
    → n ≤ length (t.transcript ++ e ∷ [])
starts_later t e h a n k = omega (arith, h a n k, length-append t.transcript (e ∷ []))

pub emits-Agrees :
    (t : Trace) (e : Event)
    → raw_outcome e.raw ≡ none
    → ((agent : String)
        → e.agent_id ≡ some agent
        → is_message e ≡ true
        → (n : ℕ) × (get t.active agent ≡ some n))
    → Agrees t
    → Agrees (emit t e)
unfolding emit is_answer
emits-Agrees t e raw own h =
    let d = derived t.transcript in
    let i = length t.transcript in
    let step : derived (t.transcript ++ e ∷ []) ≡ note_for d i e e.agent_id =
      derived-append t.transcript e ∙ step_note d i e raw in
    record {
      ledgers = ap (λ (x : Derived). x.ledger) step ∙ note_for-ledger d i e e.agent_id ∙ h.ledgers;
      slots = λ a ta.
          ap (λ (x : Derived). get x.pending a) step
          ∙ note_for-pending d i e e.agent_id a ta
          ∙ elim (Bool-cases (is_answer a e)) [
            | inr n ↦
                rw n (h.slots a ta ∙ sym (quiet a t.transcript e (get t.active a) (h.starts a) n))
            | inl y ↦ rw y (heard a ta y (own a (answer_by a e y).0 (answer_by a e y).1))
          ];
      starts = starts_later t e h.starts;
    }
  where
    heard :
        (a : String)
        → is_truthy a ≡ true
        → is_answer a e ≡ true
        → (n : ℕ) × (get t.active a ≡ some n)
        → some (answer_slot a (length t.transcript) e (get (derived t.transcript).pending a))
          ≡ span_slot a (t.transcript ++ e ∷ []) (get t.active a)
    heard a ta y (n, act) =
        ap (λ s. some (answer_slot a (length t.transcript) e s))
          (h.slots a ta ∙ ap (span_slot a t.transcript) act)
        ∙ noted_slot a (length t.transcript) e (said a n t.transcript) y
        ∙ sym (ap (slot_of a) (said-append a n t.transcript e (h.starts a n act)))
        ∙ ap (span_slot a (t.transcript ++ e ∷ [])) (sym act)
