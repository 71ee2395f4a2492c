-- ===== src/Sessions/Stopping.antt =====
-- A terminal status is final, and a stop always reaches one.
use Prim.Native.Char.{Char}
use agent_collab.Base.{
  String, ◌≡◌, refl, sym, subst, ◌∙◌, ap, inl, inr, Bool, true, false, ◌||◌, if◌then◌else◌, arith,
  Bool-cases,
}
use agent_collab.Sessions.{
  Status, stopped, is_terminal, is_live, World, notify, schedule_notify, Task, pending, no_task,
  finished,
}
use agent_collab.Sessions.Lifecycle.{plain, set_status}
use agent_collab.Sessions.Recording.{
  record_event, record_session_answer, set_event_appender, set_turn_active, set_input_accepting,
}
use agent_collab.Sessions.Ending.{requested, stop_live, stop_session}
use agent_collab.Sessions.Invariant.{
  Core, core, set_core, IsValid, set_status-IsValid, core-set_status, core-record_event,
  core-note_outcome, record_turn_outcome_new,
}
use agent_collab.Sessions.Messages.{put_input, post_event}
use agent_collab.Sessions.Steps.{
  Step, change_status, event, outcome, answer, appender, turn_active, accepting, delivered, posted,
  put, taken, input_done, index_written, request_stop, run_ended, core-post_event, core-take_input,
  core-task_done, Reach, here, next, finish_run-Moves, core-record_session_answer, Reach-IsValid,
}

-- The status and the end of a session are the same before and after.
abbrev pub SameEnd : World → World → Type 0
SameEnd w v = (v.state.status ≡ w.state.status) × (v.state.ended_at ≡ w.state.ended_at)

same_core : (w v : World) → core v ≡ core w → SameEnd w v
same_core w v e = (ap (λ (c : Core). c.status) e, ap (λ (c : Core). c.ended_at) e)

set_core_terminal :
    (now : String) (c : Core) (s : Status) → is_terminal c.status ≡ true → set_core now c s ≡ c
unfolding set_core
set_core_terminal now c s t = rw t

set_core_same :
    (now : String) (w v : World) (s : Status)
    → core v ≡ set_core now (core w) s
    → is_terminal w.state.status ≡ true
    → SameEnd w v
set_core_same now w v s e t = same_core w v (e ∙ set_core_terminal now (core w) s t)

Step-SameEnd :
    {is_digit : Char → Bool} {w v : World}
    → Step is_digit w v
    → is_terminal w.state.status ≡ true
    → SameEnd w v
unfolding set_event_appender set_turn_active set_input_accepting notify schedule_notify put_input
Step-SameEnd (change_status disk now w s r) t =
    set_core_same now w (set_status disk now w s r).0 s (core-set_status disk now w s r) t
Step-SameEnd (event disk now w e) t =
    same_core w (record_event disk now w e) (core-record_event disk now w e)
Step-SameEnd (outcome disk now {w} {v} r b e) t =
    let (new, same) = record_turn_outcome_new disk now w v r b e in
    let c = ap core same ∙ core-note_outcome disk now w r b in
    (ap (λ (x : Core). x.status) c, ap (λ (x : Core). x.ended_at) c)
Step-SameEnd (answer w a x) t =
    same_core w (record_session_answer w a x) (core-record_session_answer w a x)
Step-SameEnd (appender w p) t = (refl, refl)
Step-SameEnd (turn_active w p) t = (refl, refl)
Step-SameEnd (accepting w p) t = (refl, refl)
Step-SameEnd (delivered w) t = (refl, refl)
Step-SameEnd (posted disk now w e r) t =
    same_core w (post_event disk now (λ x. x) w e r) (core-post_event disk now w e r)
Step-SameEnd (put w item) t = (refl, refl)
Step-SameEnd (taken {w} {v} item e) t = same_core w v (core-take_input w v item e)
Step-SameEnd (input_done {w} {v} e) t = same_core w v (core-task_done w v e)
Step-SameEnd (index_written w o) t = (refl, refl)
Step-SameEnd (request_stop w) t = (refl, refl)
Step-SameEnd {is_digit} (run_ended disk now {w} {v} r e) t =
    elim (finish_run-Moves is_digit disk now w v r e) [
      | inl same ↦ same_core w v same
      | inr moved ↦ set_core_same now w v moved.0 moved.1 t
    ]

-- Once a session is terminal, no sequence of operations changes its status or its end time.
pub Reach-SameEnd :
    (is_digit : Char → Bool) {w v : World}
    → Reach is_digit w v
    → is_terminal w.state.status ≡ true
    → SameEnd w v
Reach-SameEnd is_digit here t = (refl, refl)
Reach-SameEnd is_digit (next {u} r s) t =
    let (e, f) = Reach-SameEnd is_digit r t in
    let (e', f') = Step-SameEnd s (rw e t) in (e' ∙ e, f' ∙ f)

stopped_core :
    (now : String) (c : Core)
    → (is_terminal c.status || is_live c.status) ≡ true
    → (is_terminal (set_core now c stopped).status ≡ true)
      × ((set_core now c stopped).status ≡ (if is_live c.status then stopped else c.status))
unfolding set_core
stopped_core now c h = ground arith

set_stopped :
    (disk : Bool) (now : String) (w : World)
    → IsValid w
    → (is_terminal (set_status disk now w stopped plain).0.state.status ≡ true)
      × ((set_status disk now w stopped plain).0.state.status
          ≡ (if is_live w.state.status then stopped else w.state.status))
set_stopped disk now w valid =
    let (t, e) = stopped_core now (core w) valid.known in
    let same = ap (λ (c : Core). c.status) (core-set_status disk now w stopped plain) in
    (rw same t, same ∙ e)

-- Stopping a valid session, whatever steps its cancelled run still takes, leaves a valid session whose
-- status is terminal.
pub stop_session_terminal :
    (is_digit : Char → Bool) (disk : Bool) (now : String) (settle : World → World) (w : World)
    → IsValid w
    → Reach is_digit (requested w) (settle (requested w))
    → IsValid (stop_session disk now settle w)
      × (is_terminal (stop_session disk now settle w).state.status ≡ true)
unfolding stop_session
stop_session_terminal is_digit disk now settle w valid steps =
    elim (Bool-cases (is_terminal w.state.status)) [
      | inl t ↦ rw t (valid, t)
      | inr live ↦ rw live (go w.task)
    ]
  where
    final :
        (x : World)
        → IsValid x
        → IsValid (set_status disk now x stopped plain).0
          × (is_terminal (set_status disk now x stopped plain).0.state.status ≡ true)
    final x v = (set_status-IsValid disk now x stopped plain v, (set_stopped disk now x v).0)

    settled : IsValid (settle (requested w))
    settled =
        Reach-IsValid is_digit steps
          (record { known = valid.known; ended = valid.ended; unique = valid.unique })

    go :
        (t : Task)
        → IsValid (stop_live disk now settle t w)
          × (is_terminal (stop_live disk now settle t w).state.status ≡ true)
    go pending = final (settle (requested w)) settled
    go no_task = final w valid
    go finished = final w valid

-- A run that is stopped while live, and that publishes nothing itself, ends as stopped.
pub stop_session_stopped :
    (disk : Bool) (now : String) (settle : World → World) (w : World)
    → IsValid (settle (requested w))
    → w.task ≡ pending
    → is_terminal w.state.status ≡ false
    → is_live (settle (requested w)).state.status ≡ true
    → (stop_session disk now settle w).state.status ≡ stopped
unfolding stop_session
stop_session_stopped disk now settle w valid task live unpublished =
    let after = settle (requested w) in
    let published : (stop_live disk now settle w.task w).state.status ≡ stopped =
      subst (λ t. (stop_live disk now settle t w).state.status ≡ stopped) (sym task)
        ((set_stopped disk now after valid).1 ∙ rw unpublished) in
    rw live published
