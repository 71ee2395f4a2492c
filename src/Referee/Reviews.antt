-- ===== src/Referee/Reviews.antt =====
-- A parallel stage is judged by its log: it goes on just where a member completed a turn and said
-- something.
use Prim.Native.Char.{Char, code}
use mathlib.Core.List.{append_assoc, append-nil}
use agent_collab.Base.{
  ℕ, ◌≤◌, String, ◌≡◌, refl, sym, subst, ap, ap₂, ◌∙◌, Bool, true, false, ◌&&◌, none, List, [], ◌∷◌,
  ◌++◌, All, any, map, any-append, drop, drop-append_length, length, arith, leb, if◌then◌else◌,
}
use agent_collab.Base.Text.{member}
use agent_collab.Base.Dict.{Dict, get}
use agent_collab.Events.{Event, create}
use agent_collab.Outcomes.Records.{TurnOutcomeRecord}
use agent_collab.Sessions.Answers.{is_answer}
use agent_collab.Sessions.Turns.{emit}
use agent_collab.Referee.Prompts.{parallel_prompt_for}
use agent_collab.Referee.Progress.{
  Progress, going, halted, parallel_failed, state, Setup, turn_id_of, log_event,
}
use agent_collab.Referee.Supervision.{with_active}
use agent_collab.Referee.Numbering.{any-IsNumbered}
use agent_collab.Referee.Invariant.{IsSteady}
use agent_collab.Referee.Parallel.{
  Stage, MemberStep, share_prompt, accepted_members, run_members, log_stage, judge_stage,
  open_stage, run_parallel_stage,
}
use agent_collab.Referee.Members.{
  phase_completed, has_fallen, completed_by, has_id, IsStaged, IsCalm,
}
use agent_collab.Referee.Occurrences.{
  allocated_turns, allocated_id, allocated_apart, allocated_waits,
}
use agent_collab.Referee.Overlaps.{run_members-IsStaged}
use agent_collab.Referee.Acceptance.{is_over, collected, require_accepted-select}

-- A member's review as the log and the turns since `before` show it.
unfoldable pub is_reviewed : (before after : Progress) → String → Bool
unfolding is_answer
is_reviewed before after a =
    any (completed_by a) (drop (length before.turns) after.turns)
    && any (is_answer a) (drop (length before.trace.transcript) after.trace.transcript)

dropped : {A : Type 0} (old new all : List A) → all ≡ old ++ new → drop (length old) all ≡ new
dropped old new all e = ap (drop (length old)) e ∙ drop-append_length old new

unanswered : (a : String) (e : Event) → e.agent_id ≡ none → is_answer a e ≡ false
unfolding is_answer
unanswered a e h = rw h refl

-- What the referee logs itself is no answer.
seen :
    (a : String) (old new all : List Event) (e : Event)
    → all ≡ old ++ new
    → e.agent_id ≡ none
    → any (is_answer a) (drop (length old) (all ++ e ∷ [])) ≡ any (is_answer a) new
seen a old new all e same none_ =
    ap (any (is_answer a)) (
      dropped old (new ++ e ∷ []) (all ++ e ∷ [])
        (ap (λ l. l ++ e ∷ []) same ∙ append_assoc old new (e ∷ [])))
    ∙ ground (arith, any-append (is_answer a) new (e ∷ []), unanswered a e none_)

judged_state :
    (b : Bool) (q : Progress) (n : ℕ)
    → state (if b then going q else halted q (parallel_failed n)) ≡ q
judged_state true q n = refl
judged_state false q n = refl

module _ (is_digit : Char → Bool)
    (ascii : (c : Char) → (leb 48 (code c) && leb (code c) 57) ≡ true → is_digit c ≡ true)
    (setup : Setup) (stage_index : ℕ) where
  open_stage-IsStaged :
      (upper : String → String) (task : String) (k : ℕ) (p : Progress) (members : List String)
      → IsSteady is_digit k p
      → IsStaged p (open_stage is_digit setup stage_index upper task p members)
  unfolding open_stage
  open_stage-IsStaged upper task k p members steady =
      let q = record p {
        watermarks = share_prompt p.watermarks (length p.trace.transcript) members;
        prompts =
            p.prompts ++ map (λ a. (a, parallel_prompt_for upper task p.trace.transcript)) members;
      } in
      let (turns, trace) = allocated_turns q members in
      record {
        said = ([], ap (λ t. t.transcript) trace ∙ sym (append-nil p.trace.transcript), λ a. refl);
        turns = (
          [],
          turns ∙ sym (append-nil p.turns),
          λ a. sym (allocated_waits phase_completed false refl (λ i. refl) q members a),
        );
        fresh = λ a id e. ap (any (has_id id)) turns ∙ unused id (allocated_id q members a id e);
        apart = allocated_apart q members;
        numbered = λ a id e. let (n, named, bound) = allocated_id q members a id e in (n, named);
        standing = allocated_waits has_fallen false refl (λ i. refl) q members;
      }
    where
      unused :
          (id : String)
          → (n : ℕ) × (id ≡ turn_id_of n) × (p.next_turn ≤ n)
          → any (has_id id) p.turns ≡ false
      unused id (n, named, bound) =
          any-IsNumbered 1 n p.turns id steady.numbered named (omega (arith, bound, steady.next))

  log_stage-is_reviewed :
      (p : Progress) (s : Stage) (now : String) (members accepted : List String)
      (records : Dict TurnOutcomeRecord) (a : String)
      → IsStaged p s
      → is_reviewed p
          (log_stage is_digit setup stage_index now members
            (with_active s.progress false)
            records
            accepted)
          a
        ≡ (phase_completed (get s.phases a) && member a s.produced)
  unfolding is_reviewed log_stage log_event create emit
  log_stage-is_reviewed p s now members accepted records a h =
      ap₂ (λ x y. x && y)
        (ap (any (completed_by a)) (dropped p.turns h.turns.0 s.progress.turns h.turns.1)
          ∙ h.turns.2 a)
        (seen a p.trace.transcript h.said.0 s.progress.trace.transcript _ h.said.1 refl
          ∙ sym (h.said.2 a))

  -- If the agents are valid, the ASCII digits count as digits, the runners return canonical outcomes, no
  -- stop is registered and the turn of every member ends, then however the turns overlap, the stage goes
  -- on just where its log and turns show a member with a completed turn and a message, and fails else.
  pub run_parallel_stage-is_reviewed :
      (upper : String → String) (task : String) (k : ℕ) (now : String) (p : Progress)
      (members : List String) (steps : List MemberStep)
      → 1 ≤ stage_index
      → IsSteady is_digit k p
      → All (IsCalm setup) steps
      → All
          (λ a.
            is_over (
              get
                (run_members is_digit setup stage_index
                  (open_stage is_digit setup stage_index upper task p members)
                  steps).phases
                a)
            ≡ true)
          members
      → let run =
          run_parallel_stage is_digit setup stage_index upper task false now p members steps in
        run ≡ (
          if any (is_reviewed p (state run)) members
          then going (state run)
          else halted (state run) (parallel_failed stage_index))
  unfolding run_parallel_stage judge_stage accepted_members
  run_parallel_stage-is_reviewed upper task k now p members steps positive steady calm over =
      let s =
        run_members is_digit setup stage_index
          (open_stage is_digit setup stage_index upper task p members) steps in
      let h =
        run_members-IsStaged is_digit ascii setup stage_index p steps _ positive calm
          (open_stage-IsStaged upper task k p members steady) in
      let (records, all, agree) = collected s.phases h.standing members over in
      let q =
        log_stage is_digit setup stage_index now members (with_active s.progress false) records
          (accepted_members records s.produced members) in
      let judged : run_parallel_stage is_digit setup stage_index upper task false now p members
            steps
          ≡ (if any (is_reviewed p q) members
              then going q
              else halted q (parallel_failed stage_index)) =
        ap
          (judge_stage is_digit setup stage_index now members (with_active s.progress false)
            s.produced)
          all
        ∙ require_accepted-select q stage_index _ (is_reviewed p q) members (λ a e.
          agree a (member a s.produced) e
          ∙ sym (log_stage-is_reviewed p s now members _ records a h)) in
      let at : state
            (run_parallel_stage is_digit setup stage_index upper task false now p members steps)
          ≡ q =
        ap state judged ∙ judged_state (any (is_reviewed p q) members) q stage_index in
      subst
        (λ x. run_parallel_stage is_digit setup stage_index upper task false now p members steps ≡ (
          if any (is_reviewed p x) members
          then going x
          else halted x (parallel_failed stage_index)))
        (sym at) judged
