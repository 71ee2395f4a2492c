-- ===== src/Referee/Logging.antt =====
-- The log of a referee: what it and the agents write are steps of the turns' own relation.
use agent_collab.Base.{
  ℕ, String, ◌≡◌, refl, sym, subst, ap, ◌∙◌, true, false, Option, none, some, Bool, List, [], ◌∷◌,
  All, length, ◌==◌, Bool-cases, inl, inr,
}
use agent_collab.Base.Text.{is_truthy}
use agent_collab.Base.Dict.{get, get-put, get-put_own, get-remove}
use agent_collab.Base.Values.{Value, null}
use agent_collab.Events.{Event, create, coerce_type, is_type}
use agent_collab.Outcomes.Records.{TurnOutcomeRecord}
use agent_collab.Sessions.Answers.{is_message, raw_outcome}
use agent_collab.Sessions.Turns.{
  Trace, begin_turn, emit, commit_outcome, TurnReach, here, next, begins, emits, commits, no_turns,
}
use agent_collab.Sessions.Messages.{message_event}
use agent_collab.Referee.Progress.{Progress, log_event, emit_posts}
use agent_collab.Referee.Supervision.{Spoken, own, posted, attributed, emit_all}

-- A log that the steps lead to, in which no turn is running.
pub record IsQuiet (t : Trace) : Type 0 where
  pub steps : TurnReach no_turns t
  pub idle : (a : String) → get t.active a ≡ none

pub no_turns-IsQuiet : IsQuiet no_turns
unfolding get
no_turns-IsQuiet = record { steps = here; idle = λ a. refl }

-- No event of a backend carries the mark of a boundary.
abbrev pub IsUnmarked : Event → Type 0
IsUnmarked e = raw_outcome e.raw ≡ none

-- The referee logs an event that is of no agent, or no message.
pub emit-IsQuiet :
    (t : Trace) (e : Event)
    → IsUnmarked e
    → ((agent : String) → e.agent_id ≡ some agent → is_message e ≡ false)
    → IsQuiet t
    → IsQuiet (emit t e)
unfolding emit
emit-IsQuiet t e mark silent h = record {
  steps = next h.steps (emits t e mark (λ a own_of said. absurd (clash (silent a own_of) said)));
  idle = h.idle;
}
  where
    clash : is_message e ≡ false → is_message e ≡ true → ⊥
    clash p q = cc

-- A log in which the turn of one agent runs, since the index `n`.
pub record IsTurning (agent : String) (n : ℕ) (t : Trace) : Type 0 where
  pub steps : TurnReach no_turns t
  pub running : get t.active agent ≡ some n
  pub alone : (b : String) → (agent == b) ≡ false → get t.active b ≡ none

pub begin_turn-IsTurning :
    (t : Trace) (agent : String)
    → IsQuiet t
    → IsTurning agent (length t.transcript) (begin_turn t agent)
unfolding begin_turn
begin_turn-IsTurning t agent h = record {
  steps = next h.steps (begins t agent (h.idle agent));
  running = get-put_own t.active agent (length t.transcript);
  alone = λ b e. get-put t.active agent b (length t.transcript) ∙ rw e (h.idle b);
}

said-IsTurning :
    (agent : String) (n : ℕ) (t : Trace) (e : Event)
    → IsUnmarked e
    → IsTurning agent n t
    → IsTurning agent n (emit t (attributed agent e))
unfolding emit
said-IsTurning agent n t e mark h = record {
  steps = next h.steps (
      emits t (attributed agent e) mark
        (λ a own_of said. (n, subst (λ o. running_of o ≡ some n) own_of h.running)));
  running = h.running;
  alone = h.alone;
}
  where
    running_of : Option String → Option ℕ
    running_of none = none
    running_of (some a) = get t.active a

-- A posted event is of no agent and carries no mark.
abbrev pub IsPosted : Event → Type 0
IsPosted e = IsUnmarked e × (e.agent_id ≡ none)

posted_silent :
    (e : Event) → e.agent_id ≡ none → (a : String) → e.agent_id ≡ some a → is_message e ≡ false
posted_silent e none_of a own_of = cc

-- So is the event of every message that `post_message` accepts.
message_event-IsPosted :
    (now source text : String) (target resolved : Option String) (queued : Bool)
    → IsPosted (message_event now source text target resolved queued)
unfolding message_event create raw_outcome agent_collab.Base.Values.get_field
message_event-IsPosted now source text target resolved queued = (refl, refl)

pub emit_posts-TurnReach :
    (es : List Event) (t : Trace)
    → All IsPosted es
    → TurnReach no_turns t
    → TurnReach no_turns (emit_posts t es)
unfolding emit_posts
emit_posts-TurnReach [] t marks h = h
emit_posts-TurnReach (e ∷ es) t ((m, none_of), ms) h =
    emit_posts-TurnReach es (emit t e) ms (
      next h
        (emits t e m (λ a own_of said. absurd (clash (posted_silent e none_of a own_of) said))))
  where
    clash : is_message e ≡ false → is_message e ≡ true → ⊥
    clash p q = cc

pub emit_posts-IsQuiet :
    (es : List Event) (t : Trace) → All IsPosted es → IsQuiet t → IsQuiet (emit_posts t es)
unfolding emit_posts
emit_posts-IsQuiet [] t marks h = h
emit_posts-IsQuiet (e ∷ es) t ((m, none_of), ms) h =
    emit_posts-IsQuiet es (emit t e) ms (emit-IsQuiet t e m (posted_silent e none_of) h)

posted-IsTurning :
    (agent : String) (n : ℕ) (t : Trace) (e : Event)
    → IsPosted e
    → IsTurning agent n t
    → IsTurning agent n (emit t e)
unfolding emit
posted-IsTurning agent n t e (mark, none_of) h = record {
  steps = next h.steps (emits t e mark (λ a own_of said. absurd (clash a own_of)));
  running = h.running;
  alone = h.alone;
}
  where
    clash : (a : String) → e.agent_id ≡ some a → ⊥
    clash a q = cc

abbrev pub IsSpoken : Spoken → Type 0
IsSpoken (own e) = IsUnmarked e
IsSpoken (posted e) = IsPosted e

pub emit_all-IsTurning :
    (agent : String) (n : ℕ) (es : List Spoken) (t : Trace)
    → All IsSpoken es
    → IsTurning agent n t
    → IsTurning agent n (emit_all t agent es)
unfolding emit_all
emit_all-IsTurning agent n [] t marks h = h
emit_all-IsTurning agent n (posted e ∷ es) t (m, ms) h =
    emit_all-IsTurning agent n es (emit t e) ms (posted-IsTurning agent n t e m h)
emit_all-IsTurning agent n (own e ∷ es) t (m, ms) h =
    emit_all-IsTurning agent n es (emit t (attributed agent e)) ms (said-IsTurning agent n t e m h)

pub commit_outcome-IsQuiet :
    (agent : String) (n : ℕ) (t : Trace) (now text : String) (r : TurnOutcomeRecord)
    → is_truthy r.agent_id ≡ true
    → r.agent_id ≡ agent
    → IsTurning agent n t
    → IsQuiet (commit_outcome t now text r n)
unfolding commit_outcome
commit_outcome-IsQuiet agent n t now text r truthy own_of h = record {
  steps = next h.steps (commits t now text r n (ap (get t.active) own_of ∙ h.running) truthy);
  idle = λ b. get-remove t.active r.agent_id b ∙ elim (Bool-cases (r.agent_id == b)) [
    | inl e ↦ rw e refl
    | inr e ↦ rw e (h.alone b (ap (λ a. a == b) (sym own_of) ∙ e))
  ];
}

pub null_unmarked : raw_outcome null ≡ none
unfolding raw_outcome
null_unmarked = refl

created_status :
    (now source text : String) (raw : Value) (agent : Option String)
    → (create [] now source "status" text raw agent).0.type ≡ "status"
unfolding create coerce_type is_type
created_status now source text raw agent = refl

status_silent : (e : Event) → e.type ≡ "status" → is_message e ≡ false
unfolding is_message
status_silent e h = rw h refl

pub log_status-IsQuiet :
    (p : Progress) (now source text : String) (raw : Value) (agent : Option String)
    → raw_outcome raw ≡ none
    → IsQuiet p.trace
    → IsQuiet (log_event p now source "status" text raw agent).trace
unfolding log_event create
log_status-IsQuiet p now source text raw agent mark h =
    emit-IsQuiet p.trace (create [] now source "status" text raw agent).0 mark
      (λ a own_of. status_silent _ (created_status now source text raw agent)) h

pub log_plain-IsQuiet :
    (p : Progress) (now source type text : String) (raw : Value)
    → raw_outcome raw ≡ none
    → IsQuiet p.trace
    → IsQuiet (log_event p now source type text raw none).trace
unfolding log_event create
log_plain-IsQuiet p now source type text raw mark h = emit-IsQuiet p.trace _ mark (λ a own_of. cc) h
