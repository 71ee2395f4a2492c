-- ===== src/Sessions/Posting.antt =====
-- What a posted message does: `post_message` of agent_collab/daemon.py.
use agent_collab.Base.{
  ℕ, suc, String, ◌≡◌, refl, sym, ap, subst, ◌∙◌, ◌⊎◌, inl, inr, Bool, true, Option, none, List, [],
  ◌∷◌, ◌++◌, length, arith, if◌then◌else◌, ◌==◌, ok, err, >>=-eq-ok, session_request_error,
  Bool-cases,
}
use agent_collab.Base.Text.{is_truthy, strip}
use agent_collab.Base.Values.{Value, null, str}
use agent_collab.Events.{Event, is_source, create, coerce_source, coerce_type}
use agent_collab.Sessions.{Input, Task, pending, no_task, finished, World}
use agent_collab.Sessions.Reads.{EventBatch}
use agent_collab.Sessions.Recording.{stored}
use agent_collab.Sessions.Messages.{
  is_open, validate_message_session, require_event_appender, resolve_message_target,
  normalize_message_text, normalize_message_source, message_event, accept_message, post_message,
}
use agent_collab.Sessions.Traffic.{traffic-record_event, traffic-post_event}
use agent_collab.Base.{◌||◌, eq_iff}
use agent_collab.Base.Values.{bool, obj, end, field}
use agent_collab.Outcomes.Fields.{of_text}
use agent_collab.Sessions.Addressees.{IsAgentOf, resolve_message_target-IsAgentOf}

was_open : (w : World) → validate_message_session w ≡ ok tt → is_open w ≡ true
unfolding validate_message_session
was_open w h = ground arith

pub was_ready :
    (wait : World → World) (w r : World)
    → require_event_appender wait w ≡ ok r
    → (r ≡ w) ⊎ (r ≡ wait w)
unfolding require_event_appender
was_ready wait w r h = elim (Bool-cases w.appender) [
  | inl e ↦ inl (ground arith)
  | inr e ↦ waited w.task (rw e at h)
]
  where
    waited :
        (t : Task)
        → elim t [
          | pending ↦ if (wait w).appender then ok (wait w) else err session_request_error
          | _ ↦ err session_request_error
        ]
          ≡ ok r
        → (r ≡ w) ⊎ (r ≡ wait w)
    waited pending k = inr (ground arith)
    waited no_task k = cc
    waited finished k = cc

-- The source that a message names, or the referee.
abbrev pub IsSourceOf : String → Value → Type 0
IsSourceOf src given =
    ((given ≡ null) × (src ≡ "referee"))
    ⊎ ((given ≡ str src) × (((src == "human") || (src == "referee")) ≡ true))

-- The event of a message, field by field.
abbrev pub said :
    (now source text : String) (asked resolved : Option String) (queued : Bool) → Event
said now source text asked resolved queued = record {
  timestamp = now;
  source = source;
  type = "message";
  text = text;
  raw = obj (
      field "source" (str source) (
        field "target" (of_text asked)
          (field "resolved_target" (of_text resolved) (field "queued" (bool queued) end))));
  agent_id = none;
  provider_session = none;
}

-- The event is the last of the log, and with its addressee the last input, and is the reply's event.
abbrev pub WasQueued : (before after : World) → EventBatch Event → Event → Option String → Type 0
WasQueued before after b e resolved =
    (after.events ≡ before.events ++ stored e ∷ [])
    × (after.queue ≡ before.queue ++ (record { event = e; target = resolved }) ∷ [])
    × (after.unfinished ≡ suc before.unfinished)
    × (b.events ≡ e ∷ [])
    × (b.cursor ≡ length after.events)

text_of :
    (text : Value) (t : String)
    → normalize_message_text text ≡ ok t
    → (s : String) × (text ≡ str s) × (is_truthy (strip s) ≡ true) × (t ≡ strip s)
unfolding normalize_message_text
text_of (str s) t h = elim (Bool-cases (is_truthy (strip s))) [
  | inl e ↦ (s, refl, e, ground arith)
  | inr e ↦ absurd (ground arith)
]
text_of _ t h = cc

source_of :
    (source : Value) (src : String)
    → normalize_message_source source ≡ ok src
    → IsSourceOf src source
unfolding normalize_message_source
source_of null src h = inl (refl, cc)
source_of (str s) src h = elim (Bool-cases ((s == "human") || (s == "referee"))) [
  | inl e ↦ let same : s ≡ src = ground arith in inr (ap str same, rw (sym same) e)
  | inr e ↦ absurd (ground arith)
]
source_of _ src h = cc

source_known : (src : String) (given : Value) → IsSourceOf src given → is_source src ≡ true
unfolding is_source
source_known src given (inl (n, e)) = rw e refl
source_known src given (inr (g, e)) = elim (Bool-cases (src == "human")) [
  | inl h ↦ rw ((eq_iff src "human").0 h) refl
  | inr h ↦ let r : (src == "referee") ≡ true = ground arith in rw ((eq_iff src "referee").0 r) refl
]

message_event-eq-said :
    (now source text : String) (asked resolved : Option String) (queued : Bool)
    → is_source source ≡ true
    → message_event now source text asked resolved queued
      ≡ said now source text asked resolved queued
unfolding message_event create coerce_source coerce_type agent_collab.Events.is_type
message_event-eq-said now source text asked resolved queued known = rw known refl

module _ (lower : String → String) where
  -- What a message that was accepted did: `ready` is the session once an appender was there, which
  -- tells whether a turn was active, and `during ready` the session once it had the log.
  abbrev pub WasPosted :
      (now : String) (text source target : Value) (wait during : World → World)
      → World
      → World
      → EventBatch Event
      → World
      → Type 0
  WasPosted now text source target wait during w v b ready =
      (is_open w ≡ true)
      × (is_open ready ≡ true)
      × ((ready ≡ w) ⊎ (ready ≡ wait w))
      × ((s : String) × (src : String) × (named : Option String × Option String) × (text ≡ str s)
          × (is_truthy (strip s) ≡ true)
          × IsSourceOf src source
          × (resolve_message_target lower w.state.agents target ≡ ok named)
          × IsAgentOf w.state.agents named.1
          × WasQueued (during ready) v b (said now src (strip s) named.0 named.1 ready.turn_active)
              named.1)

  accepted_is :
      (disk : Bool) (now : String) (during : World → World) (ready : World) (source text : String)
      (named : Option String × Option String)
      → is_source source ≡ true
      → WasQueued
          (during ready)
          (accept_message disk now during ready source text named).0
          (accept_message disk now during ready source text named).1
          (said now source text named.0 named.1 ready.turn_active)
          named.1
  unfolding accept_message
  accepted_is disk now during ready source text named known =
      let e = message_event now source text named.0 named.1 ready.turn_active in
      let t = traffic-post_event disk now during ready e named.1 in
      let recorded = traffic-record_event disk now (during ready) e in
      subst
        (λ x.
          WasQueued (during ready) (accept_message disk now during ready source text named).0
            (accept_message disk now during ready source text named).1 x named.1)
        (message_event-eq-said now source text named.0 named.1 ready.turn_active known)
        (
          ap (λ (x : List Event × List Input × ℕ). x.0) t,
          ap (λ (x : List Event × List Input × ℕ). x.1) t,
          ap (λ (x : List Event × List Input × ℕ). x.2) t,
          refl,
          ap (λ (x : List Event × List Input × ℕ). length x.0) recorded
              ∙ sym (ap (λ (x : List Event × List Input × ℕ). length x.0) t),
        )

  -- A message is accepted only if its text, stripped, is not empty, its source, if any, is the human or
  -- the referee, and the session is open before and after it waits for an appender. Then an event with
  -- just this text and source, with the target as given and as resolved and with the turn's activity, is
  -- logged once and queued once, as the last event and the last input, for an agent of the session or
  -- for none; the reply holds it, and its cursor is the length of the log.
  pub post_message-WasPosted :
      (disk : Bool) (now : String) (wait during : World → World) (w : World)
      (text source target : Value) (v : World) (b : EventBatch Event)
      → post_message lower disk now wait during w text source target ≡ ok (v, b)
      → (ready : World) × WasPosted now text source target wait during w v b ready
  unfolding post_message
  post_message-WasPosted disk now wait during w text source target v b h =
      let (t, e1, h1) = >>=-eq-ok (normalize_message_text text) _ h in
      let (src, e2, h2) = >>=-eq-ok (normalize_message_source source) _ h1 in
      let (u, e3, h3) = >>=-eq-ok (validate_message_session w) _ h2 in
      let (named, e4, h4) = >>=-eq-ok (resolve_message_target lower w.state.agents target) _ h3 in
      let (ready, e5, h5) = >>=-eq-ok (require_event_appender wait w) _ h4 in
      let (u', e6, h6) = >>=-eq-ok (validate_message_session ready) _ h5 in
      let same : accept_message disk now during ready src t named ≡ (v, b) = cc (h6) in
      let (s, given, truthy, stripped) = text_of text t e1 in
      let from = source_of source src e2 in
      let queued =
        subst
          (λ (p : World × EventBatch Event).
            WasQueued (during ready) p.0 p.1 (said now src t named.0 named.1 ready.turn_active)
              named.1)
          same (accepted_is disk now during ready src t named (source_known src source from)) in
      (
        ready,
        (
          was_open w e3,
          was_open ready e6,
          was_ready wait w ready e5,
          (
            s,
            src,
            named,
            given,
            truthy,
            from,
            e4,
            resolve_message_target-IsAgentOf lower w.state.agents target named e4,
            subst
                (λ x.
                  WasQueued (during ready) v b (said now src x named.0 named.1 ready.turn_active)
                    named.1)
                stripped queued,
          ),
        ),
      )
