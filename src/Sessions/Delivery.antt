-- ===== src/Sessions/Delivery.antt =====
-- `post_message` of agent_collab/daemon.py as steps of its session: what others do while it waits for an
-- appender, what they do while it waits for the log, and its own last part.
use Prim.Native.Char.{Char}
use agent_collab.Base.{String, ◌≡◌, subst, sym, Bool, inl, inr, Option, ok, >>=-eq-ok}
use agent_collab.Base.Values.{Value}
use agent_collab.Sessions.{World}
use agent_collab.Sessions.Reads.{EventBatch}
use agent_collab.Events.{Event}
use agent_collab.Sessions.Messages.{
  validate_message_session, require_event_appender, resolve_message_target, normalize_message_text,
  normalize_message_source, message_event, post_event, accept_message, post_message,
}
use agent_collab.Sessions.Posting.{was_ready}
use agent_collab.Sessions.Steps.{Reach, here, next, Reach-trans, posted}

post_event-Reach :
    {is_digit : Char → Bool} {w ready : World} (disk : Bool) (now : String) (during : World → World)
    (e : Event) (resolved : Option String)
    → Reach is_digit w (during ready)
    → Reach is_digit w (post_event disk now during ready e resolved)
unfolding post_event
post_event-Reach {ready = ready} disk now during e resolved r =
    next r (posted disk now (during ready) e resolved)

-- A message that is accepted is a sequence of the session's steps, if what others do meanwhile is.
post_message-Reach :
    {is_digit : Char → Bool} (lower : String → String) (disk : Bool) (now : String)
    (wait during : World → World) (w : World) (text source target : Value) (v : World)
    (b : EventBatch Event)
    → Reach is_digit w (wait w)
    → ((u : World) → Reach is_digit u (during u))
    → post_message lower disk now wait during w text source target ≡ ok (v, b)
    → Reach is_digit w v
unfolding post_message accept_message
post_message-Reach {is_digit} lower disk now wait during w text source target v b waited meanwhile
      h =
    let (t, e1, h1) = >>=-eq-ok (normalize_message_text text) _ h in
    let (src, e2, h2) = >>=-eq-ok (normalize_message_source source) _ h1 in
    let (u, e3, h3) = >>=-eq-ok (validate_message_session w) _ h2 in
    let (named, e4, h4) = >>=-eq-ok (resolve_message_target lower w.state.agents target) _ h3 in
    let (ready, e5, h5) = >>=-eq-ok (require_event_appender wait w) _ h4 in
    let (u', e6, h6) = >>=-eq-ok (validate_message_session ready) _ h5 in
    let e = message_event now src t named.0 named.1 ready.turn_active in
    let same : post_event disk now during ready e named.1 ≡ v = cc (h6) in
    let reached : Reach is_digit w ready = elim (was_ready wait w ready e5) [
      | inl k ↦ subst (Reach is_digit w) (sym k) here
      | inr k ↦ subst (Reach is_digit w) (sym k) waited
    ] in
    subst (Reach is_digit w) same
      (post_event-Reach disk now during e named.1 (Reach-trans reached (meanwhile ready)))
