-- ===== src/Sessions/Invariant.antt =====
-- The operations of a session as a step relation, and what no sequence of steps can break.
use agent_collab.Base.{
  String, ◌≡◌, refl, sym, subst, Bool, true, false, not, ◌&&◌, ◌||◌, Option, none, some, List, [],
  ◌∷◌, ◌++◌, any, if◌then◌else◌, ◌==◌, eq_iff, arith, ok, any-append, Bool-cases, inl, inr,
}
use agent_collab.Base.Dict.{get}
use agent_collab.Events.{Event}
use agent_collab.Outcomes.Records.{TurnOutcomeRecord}
use agent_collab.Sessions.{
  AgentSession, Status, is_terminal, is_live, World, SessionState, persist, schedule_notify,
}
use agent_collab.Sessions.Lifecycle.{
  Report, plain, failure, error_text, transition_state, apply_report, set_status,
}
use agent_collab.Sessions.Recording.{
  or_empty, append_stored, keep_session, same_session, accepted_session, capture_provider_session,
  record_event, note_outcome, record_turn_outcome,
}

pub persist-managed : (disk : Bool) (w : World) → (persist disk w).managed ≡ w.managed
unfolding persist
persist-managed disk w = ground arith

-- The part of a state that only `_set_status` and `_record_turn_outcome` write.
pub record Core : Type 0 where
  pub status : Status
  pub ended_at : Option String
  pub turn_outcomes : Option (List TurnOutcomeRecord)

abbrev pub core : World → Core
core w = record {
  status = w.state.status;
  ended_at = w.state.ended_at;
  turn_outcomes = w.state.turn_outcomes;
}

pub core-persist : (disk : Bool) (w : World) → core (persist disk w) ≡ core w
core-persist disk w = rw persist-managed

core_keep :
    (disk : Bool) (now : String) (w : World) (o : Option (String × AgentSession))
    → core (keep_session disk now w o) ≡ core w
unfolding keep_session
core_keep disk now w none = refl
core_keep disk now w (some (a, entry)) =
    elim (Bool-cases (same_session (get (or_empty w.state.agent_sessions) a) entry)) [
      | inl same ↦ rw same
      | inr other ↦ rw other (rw persist-managed)
    ]

pub core_capture :
    (disk : Bool) (now : String) (w : World) (e : Event)
    → core (capture_provider_session disk now w e) ≡ core w
unfolding capture_provider_session
core_capture disk now w e = core_keep disk now w (accepted_session w e)

pub core-record_event :
    (disk : Bool) (now : String) (w : World) (e : Event) → core (record_event disk now w e) ≡ core w
unfolding record_event schedule_notify
core-record_event disk now w e = core_capture disk now (append_stored w e) e

abbrev pub is_some {ℓ} : {A : Type ℓ} → Option A → Bool
is_some none = false
is_some (some a) = true

abbrev pub turn_known : String → List TurnOutcomeRecord → Bool
turn_known id l = any (λ item. item.turn_id == id) l

abbrev pub HasUniqueTurns : List TurnOutcomeRecord → Type 0
HasUniqueTurns [] = Unit
HasUniqueTurns (r ∷ l) = (turn_known r.turn_id l ≡ false) × HasUniqueTurns l

abbrev pub CoreIsValid : Core → Type 0
CoreIsValid c =
    ((is_terminal c.status || is_live c.status) ≡ true)
    × (is_some c.ended_at ≡ is_terminal c.status)
    × HasUniqueTurns (or_empty c.turn_outcomes)

-- The status is live or terminal, a session has an end time exactly when it is terminal, and no turn
-- has two outcomes.
pub record IsValid (w : World) : Type 0 where
  pub known : (is_terminal w.state.status || is_live w.state.status) ≡ true
  pub ended : is_some w.state.ended_at ≡ is_terminal w.state.status
  pub unique : HasUniqueTurns (or_empty w.state.turn_outcomes)

pub IsValid-of_core : {v w : World} → core v ≡ core w → IsValid w → IsValid v
IsValid-of_core {v} {w} e h =
    let h' : CoreIsValid (core v) = subst CoreIsValid (sym e) (h.known, h.ended, h.unique) in
    record { known = h'.0; ended = h'.1; unique = h'.2 }

-- What `_set_status` does to the core.
unfoldable pub set_core : (now : String) → Core → Status → Core
set_core now c status =
    if is_terminal c.status
    then c
    else if not (is_live c.status)
    then c
    else if not (is_live status) && not (is_terminal status)
    then c
    else record c {
      status = status;
      ended_at = if is_terminal status then some now else c.ended_at;
    }

abbrev state_core : SessionState → Core
state_core s = record { status = s.status; ended_at = s.ended_at; turn_outcomes = s.turn_outcomes }

core_report : (r : Report) (s : SessionState) → state_core (apply_report r s) ≡ state_core s
unfolding apply_report
core_report plain s = refl
core_report (error_text e) s = refl
core_report (failure f) s = refl

pub core-set_status :
    (disk : Bool) (now : String) (w : World) (status : Status) (report : Report)
    → core (set_status disk now w status report).0 ≡ set_core now (core w) status
unfolding set_status transition_state set_core
core-set_status disk now w status report = elim (Bool-cases (is_terminal w.state.status)) [
  | inl t ↦ rw t
  | inr f ↦ rw f (elim (Bool-cases (is_live w.state.status)) [
    | inr g ↦ rw g
    | inl l ↦ rw l (elim (Bool-cases (not (is_live status) && not (is_terminal status))) [
      | inl n ↦ rw n
      | inr y ↦ rw (y, persist-managed) (core_report report _)
    ])
  ])
]

pub set_core_valid :
    (now : String) (c : Core) (status : Status)
    → CoreIsValid c
    → CoreIsValid (set_core now c status)
unfolding set_core
set_core_valid now c status h = ground arith

pub set_status-IsValid :
    (disk : Bool) (now : String) (w : World) (status : Status) (report : Report)
    → IsValid w
    → IsValid (set_status disk now w status report).0
set_status-IsValid disk now w status report h =
    let e = core-set_status disk now w status report in
    let v = set_core_valid now (core w) status (h.known, h.ended, h.unique) in
    let h' : CoreIsValid (core (set_status disk now w status report).0) =
      subst CoreIsValid (sym e) v in
    record { known = h'.0; ended = h'.1; unique = h'.2 }

-- Appending an outcome of a turn that is not known keeps the turns distinct.
turn_known-append_new :
    (id : String) (l : List TurnOutcomeRecord) (r : TurnOutcomeRecord)
    → turn_known id l ≡ false
    → (r.turn_id == id) ≡ false
    → turn_known id (l ++ r ∷ []) ≡ false
turn_known-append_new id l r h k = rw any-append (rw h (rw k))

HasUniqueTurns-append :
    (l : List TurnOutcomeRecord) (r : TurnOutcomeRecord)
    → HasUniqueTurns l
    → turn_known r.turn_id l ≡ false
    → HasUniqueTurns (l ++ r ∷ [])
HasUniqueTurns-append [] r u h = (refl, tt)
HasUniqueTurns-append (s ∷ l) r u h = (
  turn_known-append_new s.turn_id l r u.0
      (ground (arith, eq_iff r.turn_id s.turn_id, eq_iff s.turn_id r.turn_id)),
  HasUniqueTurns-append l r u.1 (ground arith),
)

pub core-note_outcome :
    (disk : Bool) (now : String) (w : World) (r : TurnOutcomeRecord) (boundary : Event)
    → core (note_outcome disk now w r boundary)
      ≡ record (core w) { turn_outcomes = some (or_empty w.state.turn_outcomes ++ r ∷ []) }
unfolding note_outcome schedule_notify append_stored
core-note_outcome disk now w r boundary = rw persist-managed (core_capture disk now _ boundary)

pub record_turn_outcome_new :
    (disk : Bool) (now : String) (w v : World) (r : TurnOutcomeRecord) (boundary : Event)
    → record_turn_outcome disk now w r boundary ≡ ok v
    → (turn_known r.turn_id (or_empty w.state.turn_outcomes) ≡ false)
      × (v ≡ note_outcome disk now w r boundary)
unfolding record_turn_outcome
record_turn_outcome_new disk now w v r boundary h = ground arith

pub record_turn_outcome-IsValid :
    (disk : Bool) (now : String) (w v : World) (r : TurnOutcomeRecord) (boundary : Event)
    → record_turn_outcome disk now w r boundary ≡ ok v
    → IsValid w
    → IsValid v
record_turn_outcome-IsValid disk now w v r boundary h valid =
    let (new, e) = record_turn_outcome_new disk now w v r boundary h in
    let c = core-note_outcome disk now w r boundary in
    let u = HasUniqueTurns-append (or_empty w.state.turn_outcomes) r valid.unique new in
    let h' : CoreIsValid (core v) =
      rw e (subst CoreIsValid (sym c) (valid.known, valid.ended, u)) in
    record { known = h'.0; ended = h'.1; unique = h'.2 }
