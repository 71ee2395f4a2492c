-- ===== src/Referee/Closing.antt =====
-- The end of a turn that has an outcome: its commit, and whether the run goes on.
use Prim.Native.Char.{Char}
use mathlib.Core.List.{append-nil}
use agent_collab.Base.{
  ℕ, suc, ◌+◌, String, ◌≡◌, ◌≢◌, refl, sym, subst, ap, ◌∙◌, Bool, true, false, List, [], ◌∷◌, ◌++◌,
  All, map, length, length-append, arith, inr, if◌then◌else◌,
}
use agent_collab.Base.Text.{is_truthy}
use agent_collab.Outcomes.Codes.{Kind, completed}
use agent_collab.Outcomes.Evidence.{is_completed}
use agent_collab.Outcomes.Records.{TurnOutcomeRecord}
use agent_collab.Outcomes.Reload.{IsRecord, outcome_of}
use agent_collab.Sessions.Turns.{begin_turn}
use agent_collab.Referee.Arbitration.{unexpected_cancel}
use agent_collab.Referee.Verdicts.{IsVerdict}
use agent_collab.Referee.Progress.{Progress, required_failed, cancelled, turn_id_of}
use agent_collab.Referee.Supervision.{
  Turn, in_turn, boundary_text, returned, raised, turn_over, require_turn, commit_turn,
  after_commit,
}
use agent_collab.Referee.Numbering.{IsNumbered, IsNumbered-append_one}
use agent_collab.Referee.Records.{IsSound, IsCounted}
use agent_collab.Referee.Logging.{
  IsQuiet, IsSpoken, IsPosted, begin_turn-IsTurning, emit_all-IsTurning, commit_outcome-IsQuiet,
}
use agent_collab.Referee.Invariant.{
  IsComplete, ran, IsSteady, IsHalted, IsSteady-IsHalted, EndsWith, Follows,
}

-- What a runner does is sound: the outcome that it returns was made by `TurnOutcome`, and none of its
-- events is marked as a boundary. What is posted is of no agent, and not marked.
pub record IsFair (turn : Turn) : Type 0 where
  pub sound : IsSound turn.wake
  pub unmarked : All IsSpoken turn.said
  pub posts : All IsPosted turn.before

All-append_one :
    {A : Type 0} (P : A → Type 0) (xs : List A) (x : A) → All P xs → P x → All P (xs ++ x ∷ [])
All-append_one P [] x h p = (p, tt)
All-append_one P (y ∷ xs) x (q, h) p = (q, All-append_one P xs x h p)

map-append_one :
    {A B : Type 0} (f : A → B) (xs : List A) (x : A) → map f (xs ++ x ∷ []) ≡ map f xs ++ f x ∷ []
map-append_one f [] x = refl
map-append_one f (y ∷ xs) x = ap (λ l. f y ∷ l) (map-append_one f xs x)

is_completed-completed : (k : Kind) → is_completed k ≡ true → k ≡ completed
is_completed-completed completed h = refl
is_completed-completed _ h = cc

not_completed : (k : Kind) → is_completed k ≡ false → k ≢ completed
not_completed k h e = cc (ap is_completed e, h)

-- The state when the runner of a turn is done.
abbrev pub started : Progress → String → Turn → Progress
started p agent turn = in_turn p agent turn

pub commit_turn-turns :
    (p : Progress) (now : String) (r : TurnOutcomeRecord) (n : ℕ)
    → (commit_turn p now r n).turns ≡ p.turns ++ r ∷ []
unfolding commit_turn
commit_turn-turns p now r n = refl

module _ (is_digit : Char → Bool) where
  -- The end of a turn, whose record `r` is the last of the turns.
  pub settle-Follows :
      (k : ℕ) (plan : List String) (turn : Turn) (q : Progress) (front : List TurnOutcomeRecord)
      (r : TurnOutcomeRecord)
      → IsSteady is_digit k (record q { turn_active = false })
      → q.turns ≡ front ++ r ∷ []
      → All IsComplete front
      → map (λ x. x.agent_id) front ++ r.agent_id ∷ [] ≡ plan
      → IsVerdict turn.wake (outcome_of r)
      → Follows is_digit k plan (require_turn (turn_over (after_commit turn q r)))
  unfolding after_commit require_turn
  settle-Follows k plan turn q front r steady turns before agents verdict =
      go turn.stop_after (unexpected_cancel turn.wake) (is_completed r.outcome) refl refl refl
    where
      done : ran q ≡ plan
      done = ap (map (λ x. x.agent_id)) turns ∙ map-append_one (λ x. x.agent_id) front r ∙ agents

      all_done : plan ≡ ran q ++ []
      all_done = sym done ∙ sym (append-nil (ran q))

      halt : IsHalted is_digit k (record q { turn_active = false })
      halt = IsSteady-IsHalted is_digit k (record q { turn_active = false }) steady

      ends : EndsWith is_digit (record q { turn_active = false }) r
      ends = record { front = front; turns = turns; before = before }

      go :
          (stop cut complete : Bool)
          → turn.stop_after ≡ stop
          → unexpected_cancel turn.wake ≡ cut
          → is_completed r.outcome ≡ complete
          → Follows is_digit k plan (
              require_turn (
                turn_over (
                  if stop
                  then raised q cancelled
                  else if cut
                  then raised q (required_failed r)
                  else returned q r)))
      go true cut complete s c o = (halt, ([], all_done), inr (r, ends))
      go false true complete s c o =
          (halt, ([], all_done), (ends, λ e. cc (e, verdict.cancelled c)))
      go false false true s c o = rw o (
        steady,
        done,
        subst (All IsComplete) (sym turns)
            (All-append_one IsComplete front r before (is_completed-completed r.outcome o)),
      )
      go false false false s c o = rw o (halt, ([], all_done), (ends, not_completed r.outcome o))

  -- A turn that runs from a state between turns, in which its number is allocated.
  pub record IsAllocated (k n : ℕ) (p : Progress) : Type 0 where
    pub numbered : IsNumbered 1 p.turns
    pub number : n ≡ suc (length p.turns)
    pub next : p.next_turn ≡ suc n
    pub made : All (IsRecord is_digit) p.turns
    pub counted : All IsCounted p.turns
    pub queue : p.taken ≡ p.finished + k
    pub quiet : IsQuiet p.trace

  pub committed-IsSteady :
      (k n : ℕ) (agent : String) (p : Progress) (turn : Turn) (r : TurnOutcomeRecord)
      → IsAllocated k n p
      → is_truthy agent ≡ true
      → All IsSpoken turn.said
      → r.agent_id ≡ agent
      → r.turn_id ≡ turn_id_of n
      → IsRecord is_digit r
      → IsCounted r
      → IsSteady is_digit k
          (record (commit_turn (started p agent turn) turn.now r (length p.trace.transcript)) {
            turn_active = false;
          })
  unfolding commit_turn
  committed-IsSteady k n agent p turn r h truthy unmarked own id made counted = record {
    numbered =
        IsNumbered-append_one 1 p.turns r h.numbered (id ∙ ap turn_id_of (omega (arith, h.number)));
    next = omega (arith, h.next, h.number, length-append p.turns (r ∷ []));
    made = All-append_one (IsRecord is_digit) p.turns r h.made made;
    counted = All-append_one IsCounted p.turns r h.counted counted;
    idle = refl;
    queue = h.queue;
    quiet =
        commit_outcome-IsQuiet agent (length p.trace.transcript) _ turn.now (boundary_text r) r
          (ap is_truthy own ∙ truthy) own
          (emit_all-IsTurning agent (length p.trace.transcript) turn.said (begin_turn p.trace agent)
            unmarked (begin_turn-IsTurning p.trace agent h.quiet));
  }
