-- ===== src/Referee/Prompts.antt =====
-- The prompts of agent_collab/referee.py. `upper` is `str.upper`, which marks the speakers.
use Prim.Native.String.{◌++◌ as ◌<>◌}
use agent_collab.Base.{
  ℕ, ◌-◌, String, Bool, true, false, not, ◌&&◌, Option, none, some, List, [], ◌∷◌, map, drop,
  length, select, if◌then◌else◌, ◌=?◌,
}
use agent_collab.Base.Dict.{Dict, get, put}
use agent_collab.Events.{Event}
use agent_collab.Sessions.Answers.{is_agent}

-- _is_provider_session_event
abbrev pub is_some {ℓ} : {A : Type ℓ} → Option A → Bool
is_some none = false
is_some (some a) = true

unfoldable pub is_provider_session_event : Event → Bool
is_provider_session_event e = is_some e.provider_session

-- "\n".join(lines)
unfoldable pub join_lines : List String → String
join_lines [] = ""
join_lines (l ∷ []) = l
join_lines (l ∷ m ∷ rest) = let others = join_lines (m ∷ rest) in l <> ("\n" <> others)

-- _guardrails
abbrev pub guardrails : String
guardrails =
    "You are participating in an agent-collab supervised coding session.\nDo not invoke Claude, Codex, agent-collab, or another agent subprocess.\nUse read/analysis/review style unless the human explicitly asked for edits.\nDo not grant broad shell permissions automatically.\n"

abbrev pub lead_role : String
lead_role = "Lead agent: analyze the task and propose or perform the smallest useful next step."

abbrev pub reviewer_role : String
reviewer_role = "Reviewer agent: critique, identify gaps, and improve the previous response."

abbrev pub reviser_role : String
reviser_role = "Lead/reviser: produce a concise revision that accounts for the review."

-- _DIRECTED_ROLE
abbrev pub directed_role : String
directed_role =
    "Directed agent: answer the referee's latest question using the current transcript. Keep the response scoped to that question."

-- _stage_role
unfoldable pub stage_role : ℕ → String
stage_role turn = if turn =? 1 then lead_role else if turn =? 2 then reviewer_role else reviser_role

-- transcript[-n:]
unfoldable pub last_of {ℓ} : {A : Type ℓ} → ℕ → List A → List A
last_of n xs = drop (length xs - n) xs

-- The events that an agent has not seen since index `watermark`, and did not say itself.
unfoldable pub delta_events : List Event → ℕ → String → List Event
unfolding is_provider_session_event
delta_events transcript watermark agent =
    select (λ e. not (is_agent e.agent_id agent) && not (is_provider_session_event e))
      (drop watermark transcript)

-- _continuation_prompt
unfoldable pub continuation_prompt : (role delta : String) (question : Option String) → String
continuation_prompt role delta none =
    role <> ("\n\nNEW EVENTS SINCE YOUR LAST TURN:\n" <> (delta <> "\n"))
continuation_prompt role delta (some question) =
    role
    <> ("\n\nNEW EVENTS SINCE YOUR LAST TURN:\n"
        <> (delta <> ("\n" <> ("\nDIRECTED QUESTION:\n" <> (question <> "\n")))))

-- self._agent_watermarks.get(agent_id, 0)
abbrev pub or_zero : Option ℕ → ℕ
or_zero none = 0
or_zero (some n) = n

module _ (upper : String → String) where
  abbrev pub spoken_line : Event → String
  spoken_line e = upper e.source <> (": " <> e.text)

  -- _recent_transcript
  unfoldable pub recent_transcript : List Event → String
  unfolding join_lines last_of is_provider_session_event
  recent_transcript transcript =
      join_lines
        (map spoken_line (last_of 12 (select (λ e. not (is_provider_session_event e)) transcript)))

  -- _prompt_for
  unfoldable pub prompt_for : (task : String) (turn : ℕ) → List Event → String
  unfolding recent_transcript stage_role
  prompt_for task turn transcript =
      guardrails
      <> ("\n"
          <> (stage_role turn
              <> ("\n\nTASK:\n"
                  <> (task
                      <> ("\n\nRECENT TRANSCRIPT:\n" <> (recent_transcript transcript <> "\n"))))))

  -- _parallel_prompt_for
  unfoldable pub parallel_prompt_for : (task : String) → List Event → String
  unfolding recent_transcript
  parallel_prompt_for task transcript =
      guardrails
      <> ("\n"
          <> (reviewer_role
              <> ("\n\nTASK:\n"
                  <> (task
                      <> ("\n\nRECENT TRANSCRIPT:\n" <> (recent_transcript transcript <> "\n"))))))

  -- _directed_prompt_for
  unfoldable pub directed_prompt_for : (task question : String) → List Event → String
  unfolding recent_transcript
  directed_prompt_for task question transcript =
      guardrails
      <> ("\n"
          <> (directed_role
              <> ("\n\nTASK:\n"
                  <> (task
                      <> ("\n\nRECENT TRANSCRIPT:\n"
                          <> (recent_transcript transcript
                              <> ("\n\nDIRECTED QUESTION:\n" <> (question <> "\n"))))))))

  -- _continuation_delta
  unfoldable pub continuation_delta : List Event → ℕ → String → String
  unfolding delta_events join_lines
  continuation_delta transcript watermark agent =
      join_lines (map spoken_line (delta_events transcript watermark agent))

  -- _build_turn_prompt: the prompt and the new watermarks. `active` is `conversation_active()`.
  unfoldable pub build_turn_prompt :
      (active : Bool)
      → List Event
      → Dict ℕ
      → (agent role stateless : String) (question : Option String) → String × Dict ℕ
  unfolding continuation_delta continuation_prompt
  build_turn_prompt active transcript watermarks agent role stateless question = (
    if active
        then continuation_prompt role
            (continuation_delta transcript (or_zero (get watermarks agent)) agent) question
        else stateless,
    put watermarks agent (length transcript),
  )
