-- ===== src/Referee/Watermarks.antt =====
-- What a continued agent is told: every event of its peers, once, in order.
use agent_collab.Base.{
  ℕ, ◌≤◌, String, ◌≡◌, sym, ap, ◌∙◌, Bool, true, false, not, ◌&&◌, Option, List, [], ◌∷◌, ◌++◌,
  length, take, drop, select, select-append, take-append-drop, ◌==◌,
}
use agent_collab.Base.Dict.{Dict, get}
use agent_collab.Events.{Event}
use agent_collab.Sessions.Answers.{is_agent}
use agent_collab.Referee.Prompts.{
  is_provider_session_event, delta_events, or_zero, build_turn_prompt,
}

-- The events that an agent is to be told: those of its peers.
unfoldable pub is_for : String → Event → Bool
is_for agent e = not (is_agent e.agent_id agent) && not (is_provider_session_event e)

-- The log, the watermarks, the length of the log when one agent's conversation began, and what the agent
-- was told since by the deltas of its prompts.
pub record Told : Type 0 where
  pub transcript : List Event
  pub watermarks : Dict ℕ
  pub since : ℕ
  pub told : List Event

module _ (upper : String → String) (agent : String) where
  -- An event is logged; a prompt is built for another agent, with or without its conversation; a
  -- stateless prompt is built for this one, which has no conversation to continue, as before its first
  -- turn; or a continued prompt is, with the delta that `build_turn_prompt` puts into it.
  pub data TellStep : Told → Told → Type 0 where
    logs : (t : Told) (e : Event) → TellStep t (record t { transcript = t.transcript ++ e ∷ [] })
    tells_peer :
        (t : Told) (active : Bool) (peer role stateless : String) (question : Option String)
        → (peer == agent) ≡ false
        → TellStep t (record t {
          watermarks =
              (build_turn_prompt upper active t.transcript t.watermarks peer role stateless
                question).1;
        })
    starts :
        (t : Told) (role stateless : String) (question : Option String)
        → TellStep t (record t {
          watermarks =
              (build_turn_prompt upper false t.transcript t.watermarks agent role stateless
                question).1;
          since = length t.transcript;
          told = [];
        })
    tells :
        (t : Told) (role stateless : String) (question : Option String)
        → TellStep t (record t {
          watermarks =
              (build_turn_prompt upper true t.transcript t.watermarks agent role stateless
                question).1;
          told = t.told ++ delta_events t.transcript (or_zero (get t.watermarks agent)) agent;
        })

  pub data TellReach (s : Told) : Told → Type 0 where
    here : TellReach s s
    next : {t u : Told} → TellReach s t → TellStep t u → TellReach s u

  abbrev pub nothing_told : Told
  nothing_told = record { transcript = []; watermarks = []; since = 0; told = [] }

  -- What was told is what the log held for the agent from its start up to its watermark.
  record IsTold (t : Told) : Type 0 where
    from : t.since ≤ or_zero (get t.watermarks agent)
    within : or_zero (get t.watermarks agent) ≤ length t.transcript
    said :
        select (is_for agent) (take t.since t.transcript) ++ t.told
        ≡ select (is_for agent) (take (or_zero (get t.watermarks agent)) t.transcript)

  told_all :
      (transcript : List Event) (n : ℕ)
      → select (is_for agent) (take n transcript) ++ delta_events transcript n agent
        ≡ select (is_for agent) transcript
  unfolding delta_events is_for
  told_all transcript n =
      sym (select-append (is_for agent) (take n transcript) (drop n transcript))
      ∙ ap (select (is_for agent)) (take-append-drop n transcript)
