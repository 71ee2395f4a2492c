-- ===== src/Sessions/Traffic.antt =====
-- What recording an event and posting a message do to a session's events and inputs.
use agent_collab.Base.{
  ℕ, suc, String, ◌≡◌, refl, ap, ◌∙◌, inl, inr, Bool, Option, none, some, List, [], ◌∷◌, ◌++◌,
  if◌then◌else◌, Bool-cases,
}
use agent_collab.Base.Dict.{Dict}
use agent_collab.Events.{Event}
use agent_collab.Sessions.{
  Input, AgentSession, World, SessionState, with_state, persist, schedule_notify,
}
use agent_collab.Sessions.Recording.{
  stored, append_stored, same_session, or_empty, keep_session, capture_provider_session,
  record_event,
}
use agent_collab.Base.Dict.{get, put}
use agent_collab.Sessions.Messages.{put_input, post_event}

-- What messages change of a session: its events and its inputs.
abbrev pub traffic : World → List Event × List Input × ℕ
traffic w = (w.events, w.queue, w.unfinished)

traffic-persist : (disk : Bool) (w : World) → traffic (persist disk w) ≡ traffic w
unfolding persist
traffic-persist disk w = go w.index
  where
    go :
        (i : Option (Dict SessionState))
        → traffic (elim i [
          | none ↦ w
          | some records ↦
              if disk then record w { index = some (put records w.state.session_id w.state) } else w
        ])
          ≡ traffic w
    go none = refl
    go (some records) = elim (Bool-cases disk) [ inl e ↦ rw e | inr e ↦ rw e ]

traffic-keep_session :
    (disk : Bool) (now : String) (w : World) (found : Option (String × AgentSession))
    → traffic (keep_session disk now w found) ≡ traffic w
unfolding keep_session
traffic-keep_session disk now w none = refl
traffic-keep_session disk now w (some (agent_id, entry)) =
    elim (Bool-cases (same_session (get (or_empty w.state.agent_sessions) agent_id) entry)) [
      | inl e ↦ rw e
      | inr e ↦ rw e (traffic-persist disk _)
    ]

pub traffic-record_event :
    (disk : Bool) (now : String) (w : World) (e : Event)
    → traffic (record_event disk now w e) ≡ (w.events ++ stored e ∷ [], w.queue, w.unfinished)
unfolding record_event capture_provider_session append_stored schedule_notify
traffic-record_event disk now w e = traffic-keep_session disk now _ _

pub traffic-post_event :
    (disk : Bool) (now : String) (during : World → World) (w : World) (e : Event)
    (resolved : Option String)
    → traffic (post_event disk now during w e resolved) ≡ (
      (during w).events ++ stored e ∷ [],
      (during w).queue ++ (record { event = e; target = resolved }) ∷ [],
      suc (during w).unfinished,
    )
unfolding post_event put_input
traffic-post_event disk now during w e resolved =
    let logged = record_event disk now (during w) e in
    let saved = with_state logged (record logged.state { updated_at = e.timestamp }) in
    let same = traffic-persist disk saved ∙ traffic-record_event disk now (during w) e in
    ap
      (λ (t : List Event × List Input × ℕ).
        (t.0, t.1 ++ (record { event = e; target = resolved }) ∷ [], suc t.2))
      same
