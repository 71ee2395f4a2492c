-- ===== src/Referee/Invariant.antt =====
-- What holds of a referee between its turns, and when a run ends.
use Prim.Native.Char.{Char}
use mathlib.Core.List.{append_assoc, append-nil}
use agent_collab.Base.{
  ℕ, suc, ◌+◌, String, ◌≡◌, ◌≢◌, sym, subst, ap, ◌∙◌, Bool, false, ◌⊎◌, inl, inr, List, [], ◌∷◌,
  ◌++◌, All, map, length,
}
use agent_collab.Outcomes.Codes.{completed}
use agent_collab.Outcomes.Records.{TurnOutcomeRecord}
use agent_collab.Outcomes.Reload.{IsRecord}
use agent_collab.Sessions.Turns.{TurnReach, no_turns}
use agent_collab.Referee.Progress.{
  Progress, Halt, required_failed, parallel_failed, cancelled, broken, Run, going, halted, and_then,
  finally,
}
use agent_collab.Referee.Numbering.{IsNumbered}
use agent_collab.Referee.Records.{IsCounted}
use agent_collab.Referee.Logging.{IsQuiet}

abbrev pub IsComplete : TurnOutcomeRecord → Type 0
IsComplete r = r.outcome ≡ completed

-- The agents of the turns that were committed, in order.
abbrev pub ran : Progress → List String
ran p = map (λ r. r.agent_id) p.turns

module _ (is_digit : Char → Bool) where
  -- The turns are numbered from 1 on and their records are valid, no turn runs, the log is the one
  -- that its turns made, and `k` inputs are taken that are not reported done.
  pub record IsSteady (k : ℕ) (p : Progress) : Type 0 where
    pub numbered : IsNumbered 1 p.turns
    pub next : p.next_turn ≡ suc (length p.turns)
    pub made : All (IsRecord is_digit) p.turns
    pub counted : All IsCounted p.turns
    pub idle : p.turn_active ≡ false
    pub queue : p.taken ≡ p.finished + k
    pub quiet : IsQuiet p.trace

  -- What holds of a referee whose run stopped: also, that a turn is cut off before it has an outcome.
  pub record IsHalted (k : ℕ) (p : Progress) : Type 0 where
    pub numbered : IsNumbered 1 p.turns
    pub made : All (IsRecord is_digit) p.turns
    pub counted : All IsCounted p.turns
    pub idle : p.turn_active ≡ false
    pub queue : p.taken ≡ p.finished + k
    pub steps : TurnReach no_turns p.trace

  pub IsSteady-IsHalted : (k : ℕ) (p : Progress) → IsSteady k p → IsHalted k p
  IsSteady-IsHalted k p h = record {
    numbered = h.numbered;
    made = h.made;
    counted = h.counted;
    idle = h.idle;
    queue = h.queue;
    steps = h.quiet.steps;
  }

  -- What the last turn of a run that stopped is, all before it being completed.
  pub record EndsWith (p : Progress) (r : TurnOutcomeRecord) : Type 0 where
    pub front : List TurnOutcomeRecord
    pub turns : p.turns ≡ front ++ r ∷ []
    pub before : All IsComplete front

  -- Nothing stops a run but a turn, which is then its last, or a cancellation.
  abbrev pub IsExplained : Progress → Halt → Type 0
  IsExplained p (required_failed r) = EndsWith p r × (r.outcome ≢ completed)
  IsExplained p cancelled = All IsComplete p.turns ⊎ ((r : TurnOutcomeRecord) × EndsWith p r)
  IsExplained p (parallel_failed n) = ⊥
  IsExplained p (broken e) = ⊥

  -- A run that had `plan` to do goes on when it did all of it, each turn completed, or it stopped in
  -- the plan's order.
  abbrev pub Follows : (k : ℕ) (plan : List String) → Run → Type 0
  Follows k plan (going p) = IsSteady k p × (ran p ≡ plan) × All IsComplete p.turns
  Follows k plan (halted p h) =
      IsHalted k p × ((rest : List String) × (plan ≡ ran p ++ rest)) × IsExplained p h

  pub and_then-Follows :
      (k : ℕ) (plan more : List String) (run : Run) (next : Progress → Run)
      → Follows k plan run
      → ((p : Progress) → Follows k plan (going p) → Follows k (plan ++ more) (next p))
      → Follows k (plan ++ more) (and_then run next)
  and_then-Follows k plan more (going p) next h f = f p h
  and_then-Follows k plan more (halted p x) next (steady, (rest, e), why) f =
      (steady, (rest ++ more, ap (λ l. l ++ more) e ∙ append_assoc (ran p) rest more), why)

  pub in_turn-Follows :
      (k : ℕ) (plan a b : List String) (run : Run) (next : Progress → Run)
      → Follows k (plan ++ a) run
      → ((p : Progress) → Follows k (plan ++ a) (going p) → Follows k ((plan ++ a) ++ b) (next p))
      → Follows k (plan ++ (a ++ b)) (and_then run next)
  in_turn-Follows k plan a b run next h f =
      subst (λ l. Follows k l (and_then run next)) (append_assoc plan a b)
        (and_then-Follows k (plan ++ a) b run next h f)

  pub after-Follows :
      (k : ℕ) (plan : List String) (run : Run) (next : Progress → Run)
      → Follows k plan run
      → ((p : Progress) → Follows k plan (going p) → Follows k plan (next p))
      → Follows k plan (and_then run next)
  after-Follows k plan (going p) next h f = f p h
  after-Follows k plan (halted p x) next h f = h

  pub nothing-Follows :
      (k : ℕ) (plan : List String) (run : Run) → Follows k plan run → Follows k (plan ++ []) run
  nothing-Follows k plan run h = subst (λ l. Follows k l run) (sym (append-nil plan)) h

  -- An operation on the state that leaves the turns and the log alone, run in any case.
  pub finally-Follows :
      (j k : ℕ) (plan : List String) (run : Run) (last : Progress → Progress)
      → ((p : Progress) → (last p).turns ≡ p.turns)
      → ((p : Progress) → IsSteady j p → IsSteady k (last p))
      → ((p : Progress) → IsHalted j p → IsHalted k (last p))
      → Follows j plan run
      → Follows k plan (finally last run)
  finally-Follows j k plan (going p) last same keeps keeps' (steady, done, all) = (
    keeps p steady,
    ap (map (λ r. r.agent_id)) (same p) ∙ done,
    subst (All IsComplete) (sym (same p)) all,
  )
  finally-Follows j k plan (halted p h) last same keeps keeps' (steady, (rest, e), why) = (
    keeps' p steady,
    (rest, e ∙ ap (λ l. map (λ (r : TurnOutcomeRecord). r.agent_id) l ++ rest) (sym (same p))),
    explained h why,
  )
    where
      ends : (r : TurnOutcomeRecord) → EndsWith p r → EndsWith (last p) r
      ends r w = record { front = w.front; turns = same p ∙ w.turns; before = w.before }

      explained : (h : Halt) → IsExplained p h → IsExplained (last p) h
      explained (required_failed r) (w, o) = (ends r w, o)
      explained cancelled (inl all) = inl (subst (All IsComplete) (sym (same p)) all)
      explained cancelled (inr (r, w)) = inr (r, ends r w)
      explained (parallel_failed n) w = w
      explained (broken e) w = w

  -- A cancellation between turns.
  pub cancelled-Follows :
      (k : ℕ) (plan more : List String) (p : Progress)
      → Follows k plan (going p)
      → Follows k (plan ++ more) (halted p cancelled)
  cancelled-Follows k plan more p (steady, done, all) =
      (IsSteady-IsHalted k p steady, (more, ap (λ l. l ++ more) (sym done)), inl all)

  -- An operation on the state that leaves the turns alone.
  pub going-Follows :
      (k : ℕ) (plan : List String) (p q : Progress)
      → q.turns ≡ p.turns
      → IsSteady k q
      → Follows k plan (going p)
      → Follows k plan (going q)
  going-Follows k plan p q same steady (old, done, all) =
      (steady, ap (map (λ r. r.agent_id)) same ∙ done, subst (All IsComplete) (sym same) all)
