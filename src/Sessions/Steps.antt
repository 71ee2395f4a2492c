-- ===== src/Sessions/Steps.antt =====
-- The operations of a session as a step relation, and what no sequence of steps can break.
use Prim.Native.Char.{Char}
use agent_collab.Base.{
  String, ◌≡◌, sym, subst, ◌∙◌, ap, ◌⊎◌, inl, inr, Bool, true, false, not, ◌&&◌, if◌then◌else◌,
  arith, Result, ok, err, ℕ, zero, suc, Option, some, List, [], ◌∷◌,
}
use agent_collab.Base.Dict.{Dict}
use agent_collab.Events.{Event}
use agent_collab.Outcomes.Records.{TurnOutcomeRecord, SessionFailure, from_record}
use agent_collab.Sessions.{
  Status, done, failed, is_live, World, SessionState, Input, notify, schedule_notify, Answer,
}
use agent_collab.Sessions.Lifecycle.{Report, plain, failure, set_status}
use agent_collab.Sessions.Recording.{
  record_event, record_turn_outcome, record_session_answer, set_event_appender, set_turn_active,
  set_input_accepting,
}
use agent_collab.Sessions.Messages.{
  pop_input, finish_input, put_input, take_input, task_done, post_event,
}
use agent_collab.Sessions.Ending.{
  RunEnd, returned, cancelled, required_turn_failed, parallel_stage_failed, crashed, bare_failure,
  stage_failure, publish_failure, save_paths, finish_run, crash_event,
}
use agent_collab.Sessions.Invariant.{
  core, set_core, CoreIsValid, IsValid, core-persist, core-set_status, core-record_event,
  set_status-IsValid, record_turn_outcome-IsValid, IsValid-of_core, set_core_valid,
}

-- A run's end leaves the core alone or makes one change of status.
abbrev pub Moves : String → World → World → Type 0
Moves now w v = (core v ≡ core w) ⊎ ((s : Status) × (core v ≡ set_core now (core w) s))

publish_failure-set_core :
    (is_digit : Char → Bool) (disk : Bool) (now : String) (w v : World) (f : Result SessionFailure)
    → publish_failure is_digit disk now w f ≡ ok v
    → core v ≡ set_core now (core w) failed
unfolding publish_failure
publish_failure-set_core is_digit disk now w v (ok f) h =
    ground (arith, core-set_status disk now w failed (failure f))
publish_failure-set_core is_digit disk now w v (err e) h = cc

either_branch :
    {P : Type 0} {v : World} (b : Bool) (x y : Result World)
    → (if b then x else y) ≡ ok v
    → (x ≡ ok v → P)
    → (y ≡ ok v → P)
    → P
either_branch true x y h p q = p h
either_branch false x y h p q = q h

same_world : {x v : World} → ok x ≡ ok v → v ≡ x
same_world h = cc

core-save_paths : (disk : Bool) (w : World) (j m : String) → core (save_paths disk w j m) ≡ core w
unfolding save_paths
core-save_paths disk w j m = core-persist disk _

pub finish_run-Moves :
    (is_digit : Char → Bool) (disk : Bool) (now : String) (w v : World) (r : RunEnd)
    → finish_run is_digit disk now w r ≡ ok v
    → Moves now w v
unfolding finish_run
finish_run-Moves is_digit disk now w v (returned j m) h =
    let saved : World = save_paths disk w j m in
    let settled : World = (set_status disk now saved done plain).0 in
    either_branch (is_live saved.state.status && not saved.stop_requested) (ok settled) (ok saved) h
      (λ e. inr (
        done,
        ap core (same_world {x = settled} e)
            ∙ core-set_status disk now saved done plain
            ∙ ap (λ c. set_core now c done) (core-save_paths disk w j m),
      ))
      (λ e. inl (ap core (same_world {x = saved} e) ∙ core-save_paths disk w j m))
finish_run-Moves is_digit disk now w v cancelled h =
    either_branch w.stop_requested (ok w)
      (publish_failure is_digit disk now w (bare_failure is_digit "referee_cancelled_unexpected")) h
      (λ e. inl (ap core (same_world {x = w} e)))
      (λ e. inr (
        failed,
        publish_failure-set_core is_digit disk now w v
            (bare_failure is_digit "referee_cancelled_unexpected") e,
      ))
finish_run-Moves is_digit disk now w v (required_turn_failed r) h =
    inr (failed, publish_failure-set_core is_digit disk now w v (from_record is_digit r) h)
finish_run-Moves is_digit disk now w v (parallel_stage_failed n) h =
    inr (failed, publish_failure-set_core is_digit disk now w v (stage_failure is_digit n) h)
finish_run-Moves is_digit disk now w v (crashed c) h = inr (
  failed,
  publish_failure-set_core is_digit disk now _ v (bare_failure is_digit "provider_transport_failed")
        h
      ∙ ap (λ x. set_core now x failed) (core-record_event disk now w (crash_event now c)),
)

-- One operation on a session. An operation that writes the index says itself whether the write
-- succeeds. `request_stop` is the first act of `stop_session`; its last is a `change_status`. `posted` is
-- what `post_message` does once it holds the log: its earlier awaits are steps of others, before it.
pub data Step (is_digit : Char → Bool) : World → World → Type 0 where
  change_status :
      (disk : Bool) (now : String) (w : World) (status : Status) (report : Report)
      → Step is_digit w (set_status disk now w status report).0
  event :
      (disk : Bool) (now : String) (w : World) (e : Event)
      → Step is_digit w (record_event disk now w e)
  outcome :
      (disk : Bool) (now : String) {w v : World} (r : TurnOutcomeRecord) (boundary : Event)
      → record_turn_outcome disk now w r boundary ≡ ok v
      → Step is_digit w v
  answer :
      (w : World) (agent_id : String) (a : Answer)
      → Step is_digit w (record_session_answer w agent_id a)
  appender : (w : World) (present : Bool) → Step is_digit w (set_event_appender w present)
  turn_active : (w : World) (active : Bool) → Step is_digit w (set_turn_active w active)
  accepting : (w : World) (b : Bool) → Step is_digit w (set_input_accepting w b)
  delivered : (w : World) → Step is_digit w (notify w)
  posted :
      (disk : Bool) (now : String) (w : World) (e : Event) (target : Option String)
      → Step is_digit w (post_event disk now (λ x. x) w e target)
  put : (w : World) (item : Input) → Step is_digit w (put_input w item)
  taken : {w v : World} (item : Input) → take_input w ≡ some (item, v) → Step is_digit w v
  input_done : {w v : World} → task_done w ≡ ok v → Step is_digit w v
  index_written :
      (w : World) (index : Option (Dict SessionState))
      → Step is_digit w (record w { index = index })
  request_stop :
      (w : World)
      → Step is_digit w (record w { managed = record w.managed { stop_requested = true } })
  run_ended :
      (disk : Bool) (now : String) {w v : World} (r : RunEnd)
      → finish_run is_digit disk now w r ≡ ok v
      → Step is_digit w v

pub data Reach (is_digit : Char → Bool) (w : World) : World → Type 0 where
  here : Reach is_digit w w
  next : {u v : World} → Reach is_digit w u → Step is_digit u v → Reach is_digit w v

pub Reach-trans :
    {is_digit : Char → Bool} {w u v : World}
    → Reach is_digit w u
    → Reach is_digit u v
    → Reach is_digit w v
Reach-trans r here = r
Reach-trans r (next s t) = next (Reach-trans r s) t

pub core-post_event :
    (disk : Bool) (now : String) (w : World) (e : Event) (target : Option String)
    → core (post_event disk now (λ x. x) w e target) ≡ core w
unfolding post_event put_input
core-post_event disk now w e target = core-persist disk _ ∙ core-record_event disk now w e

pub core-take_input : (w v : World) (item : Input) → take_input w ≡ some (item, v) → core v ≡ core w
unfolding take_input pop_input
core-take_input w v item h = go w.queue h
  where
    go : (l : List Input) → pop_input w l ≡ some (item, v) → core v ≡ core w
    go [] k = cc
    go (i ∷ rest) k =
        let same : v ≡ record w { managed = record w.managed { queue = rest } } = cc in ap core same

pub core-task_done : (w v : World) → task_done w ≡ ok v → core v ≡ core w
unfolding task_done finish_input schedule_notify
core-task_done w v h = go w.unfinished h
  where
    go : (n : ℕ) → finish_input w n ≡ ok v → core v ≡ core w
    go zero k = cc
    go (suc n) k = ap core (same_world k)

pub core-record_session_answer :
    (w : World) (a : String) (x : Answer) → core (record_session_answer w a x) ≡ core w
unfolding record_session_answer
core-record_session_answer w a x = ground arith

run_ended-IsValid :
    (is_digit : Char → Bool) (disk : Bool) (now : String) (w v : World) (r : RunEnd)
    → finish_run is_digit disk now w r ≡ ok v
    → IsValid w
    → IsValid v
run_ended-IsValid is_digit disk now w v r h valid =
    elim (finish_run-Moves is_digit disk now w v r h) [
      | inl same ↦ IsValid-of_core same valid
      | inr moved ↦
          let c = set_core_valid now (core w) moved.0 (valid.known, valid.ended, valid.unique) in
          let h' : CoreIsValid (core v) = subst CoreIsValid (sym moved.1) c in
          record { known = h'.0; ended = h'.1; unique = h'.2 }
    ]

Step-IsValid : {is_digit : Char → Bool} {w v : World} → Step is_digit w v → IsValid w → IsValid v
unfolding set_event_appender set_turn_active set_input_accepting notify schedule_notify put_input
Step-IsValid (change_status disk now w s r) h = set_status-IsValid disk now w s r h
Step-IsValid (event disk now w e) h = IsValid-of_core (core-record_event disk now w e) h
Step-IsValid (outcome disk now {w} {v} r b e) h = record_turn_outcome-IsValid disk now w v r b e h
Step-IsValid (answer w a x) h = IsValid-of_core (core-record_session_answer w a x) h
Step-IsValid (appender w p) h = record { known = h.known; ended = h.ended; unique = h.unique }
Step-IsValid (turn_active w p) h = record { known = h.known; ended = h.ended; unique = h.unique }
Step-IsValid (accepting w p) h = record { known = h.known; ended = h.ended; unique = h.unique }
Step-IsValid (delivered w) h = record { known = h.known; ended = h.ended; unique = h.unique }
Step-IsValid (posted disk now w e t) h = IsValid-of_core (core-post_event disk now w e t) h
Step-IsValid (put w item) h = record { known = h.known; ended = h.ended; unique = h.unique }
Step-IsValid (taken {w} {v} item e) h = IsValid-of_core (core-take_input w v item e) h
Step-IsValid (input_done {w} {v} e) h = IsValid-of_core (core-task_done w v e) h
Step-IsValid (index_written w o) h = record { known = h.known; ended = h.ended; unique = h.unique }
Step-IsValid (request_stop w) h = record { known = h.known; ended = h.ended; unique = h.unique }
Step-IsValid (run_ended disk now {w} {v} r e) h = run_ended-IsValid _ disk now w v r e h

-- Whatever sequence of operations a session goes through, from a valid state: its status stays live or
-- terminal, it has an end time exactly when the status is terminal, and no turn gets a second outcome.
pub Reach-IsValid :
    (is_digit : Char → Bool) {w v : World} → Reach is_digit w v → IsValid w → IsValid v
Reach-IsValid is_digit here h = h
Reach-IsValid is_digit (next r s) h = Step-IsValid s (Reach-IsValid is_digit r h)
