-- ===== src/Sessions/RecoveryExamples.antt =====
-- The theorem on recovered answers, at two turns that overlap.
use agent_collab.Base.{ℕ, String, ◌≡◌, refl, subst, Bool, true, Option, none, some, [], ◌∷◌, ◌==◌}
use agent_collab.Base.Dict.{get}
use agent_collab.Base.Values.{bool, obj, end, field}
use agent_collab.Events.{Event}
use agent_collab.Sessions.Answers.{raw_outcome, restored_answers, live_answers}
use agent_collab.Sessions.Turns.{
  Trace, begin_turn, emit, commit_outcome, TurnReach, here, next, begins, emits, commits, no_turns,
}
use agent_collab.Sessions.Recovery.{restored_answers-live_answers}
use agent_collab.Sessions.Examples.{message}
use agent_collab.Sessions.RestartExamples.{first_turn}

abbrev final_words : Event
final_words = record message { text = "all done"; raw = obj (field "final" (bool true) end) }

abbrev begun : Trace
begun = begin_turn (begin_turn no_turns "a") "b"

abbrev told : Trace
told = emit (emit begun final_words) message

abbrev closed : Trace
closed = commit_outcome told "12:30" "turn-1 a completed" first_turn 0

a_begins : get no_turns.active "a" ≡ none
unfolding get
a_begins = refl

b_begins : get (begin_turn no_turns "a").active "b" ≡ none
unfolding get begin_turn agent_collab.Base.Dict.put
b_begins = refl

a_speaks :
    (t : Trace)
    → get t.active "a" ≡ some 0
    → (g : String) → some "a" ≡ some g
    → (n : ℕ) × (get t.active g ≡ some n)
a_speaks t h g e = let same : "a" ≡ g = cc in (0, subst (λ x. get t.active x ≡ some 0) same h)

a_active : get begun.active "a" ≡ some 0
unfolding get begin_turn agent_collab.Base.Dict.put
a_active = refl

plain_final : raw_outcome final_words.raw ≡ none
unfolding raw_outcome
plain_final = refl

plain_message : raw_outcome message.raw ≡ none
unfolding raw_outcome
plain_message = refl

a_active_later : get (emit begun final_words).active "a" ≡ some 0
unfolding get begin_turn emit agent_collab.Base.Dict.put
a_active_later = refl

a_active_last : get told.active "a" ≡ some 0
unfolding get begin_turn emit agent_collab.Base.Dict.put
a_active_last = refl

closed_steps : TurnReach no_turns closed
closed_steps =
    next
      (next
        (next
          (next (next here (begins no_turns "a" a_begins))
            (begins (begin_turn no_turns "a") "b" b_begins))
          (emits begun final_words plain_final (λ g e m. a_speaks begun a_active g e)))
        (emits (emit begun final_words) message plain_message
          (λ g e m. a_speaks (emit begun final_words) a_active_later g e)))
      (commits told "12:30" "turn-1 a completed" first_turn 0 a_active_last refl)

restored_answers-live_answers_example :
    restored_answers closed.transcript ≡ live_answers closed.ledger
restored_answers-live_answers_example = restored_answers-live_answers closed_steps
