-- ===== src/Referee/Turning.antt =====
-- A required turn: it is added to the turns, and the run goes on only if it completed.
use Prim.Native.Char.{Char, code}
use agent_collab.Base.{
  ℕ, ◌≤◌, String, ◌≡◌, refl, sym, ap, ◌∙◌, Bool, true, false, ◌&&◌, Option, some, List, [], ◌∷◌,
  ◌++◌, All, length, arith, leb, Bool-cases, inl, inr,
}
use agent_collab.Base.Values.{null}
use agent_collab.Events.{Event}
use agent_collab.Sessions.Turns.{begin_turn}
use agent_collab.Referee.Arbitration.{is_running}
use agent_collab.Referee.Progress.{
  Progress, cancelled, going, halted, Setup, turn_id_of, allocate_occurrence, log_event,
}
use agent_collab.Referee.Supervision.{
  Turn, in_turn, clean_up, turn_record, turn_over, require_turn, close_turn, run_agent_turn,
  send_prompt, required_turn,
}
use agent_collab.Referee.Numbering.{any-IsNumbered}
use agent_collab.Referee.Records.{IsParty, check_agent-truthy, turn_record-IsTurnRecord}
use agent_collab.Referee.Logging.{
  begin_turn-IsTurning, emit_all-IsTurning, log_status-IsQuiet, null_unmarked,
}
use agent_collab.Referee.Invariant.{IsComplete, ran, Follows, cancelled-Follows}
use agent_collab.Referee.Closing.{
  IsFair, started, commit_turn-turns, settle-Follows, IsAllocated, committed-IsSteady,
}

module _ (is_digit : Char → Bool)
    (ascii : (c : Char) → (leb 48 (code c) && leb (code c) 57) ≡ true → is_digit c ≡ true)
    (setup : Setup) where
  closed_turn-Follows :
      (k n stage : ℕ) (plan : List String) (agent : String) (p : Progress) (turn : Turn)
      → IsAllocated is_digit k n p
      → ran p ≡ plan
      → All IsComplete p.turns
      → IsParty setup agent
      → 1 ≤ stage
      → IsFair turn
      → Follows is_digit k (plan ++ agent ∷ []) (
          require_turn (
            turn_over (
              close_turn turn
                (in_turn p agent turn)
                (length p.trace.transcript)
                (turn_record is_digit setup (turn_id_of n) stage agent turn.wake))))
  unfolding close_turn
  closed_turn-Follows k n stage plan agent p turn h done all party positive fair =
      let (r, made, turned) =
        turn_record-IsTurnRecord is_digit ascii setup n stage agent turn.wake party positive
          fair.sound in
      rw
        (
          made,
          any-IsNumbered 1 n p.turns r.turn_id h.numbered turned.turn (omega (arith, h.number)),
        )
        (settle-Follows is_digit k (plan ++ agent ∷ []) turn _ p.turns r
          (committed-IsSteady is_digit k n agent p turn r h (check_agent-truthy agent party.id)
            fair.unmarked turned.owner turned.turn turned.made turned.counted)
          (commit_turn-turns (started p agent turn) turn.now r (length p.trace.transcript)) all
          (ap (λ l. l ++ r.agent_id ∷ []) done ∙ ap (λ a. plan ++ a ∷ []) turned.owner)
          turned.verdict)

  -- A turn that is cut off in the cleanup of its runner has no outcome.
  cut_turn-Follows :
      (k n : ℕ) (plan : List String) (agent : String) (p : Progress) (turn : Turn)
      → IsAllocated is_digit k n p
      → ran p ≡ plan
      → All IsComplete p.turns
      → IsFair turn
      → Follows is_digit k
          (plan ++ agent ∷ [])
          (halted (record (in_turn p agent turn) { turn_active = false }) cancelled)
  cut_turn-Follows k n plan agent p turn h done all fair = (
    record {
      numbered = h.numbered;
      made = h.made;
      counted = h.counted;
      idle = refl;
      queue = h.queue;
      steps =
          (emit_all-IsTurning agent (length p.trace.transcript) turn.said (begin_turn p.trace agent)
            fair.unmarked (begin_turn-IsTurning p.trace agent h.quiet)).steps;
    },
    (agent ∷ [], ap (λ l. l ++ agent ∷ []) (sym done)),
    inl all,
  )

  run_agent_turn-Follows :
      (k n stage : ℕ) (plan : List String) (agent : String) (p : Progress) (turn : Turn)
      → IsAllocated is_digit k n p
      → ran p ≡ plan
      → All IsComplete p.turns
      → IsParty setup agent
      → 1 ≤ stage
      → IsFair turn
      → Follows is_digit k
          (plan ++ agent ∷ [])
          (require_turn (run_agent_turn is_digit setup p agent stage (turn_id_of n) turn))
  unfolding run_agent_turn clean_up require_turn
  run_agent_turn-Follows k n stage plan agent p turn h done all party positive fair =
      elim (Bool-cases (turn.cut_cleanup && is_running turn.wake.runner)) [
        | inl e ↦ rw e (cut_turn-Follows k n plan agent p turn h done all fair)
        | inr e ↦
            rw e (closed_turn-Follows k n stage plan agent p turn h done all party positive fair)
      ]

  -- A required turn of a valid agent with a fair runner: the agent's turn is the next of the plan.
  pub required_turn-Follows :
      (upper : String → String) (k : ℕ) (plan : List String) (p : Progress)
      (announcement agent role : String) (stateless : List Event → String)
      (question : Option String) (stage_of : ℕ → ℕ) (turn : Turn)
      → Follows is_digit k plan (going p)
      → IsParty setup agent
      → 1 ≤ stage_of p.next_turn
      → IsFair turn
      → Follows is_digit k (plan ++ agent ∷ []) (
          required_turn upper is_digit setup p announcement agent role stateless question stage_of
            turn)
  unfolding required_turn send_prompt allocate_occurrence log_event
  required_turn-Follows upper k plan p announcement agent role stateless question stage_of turn
        (steady, done, all) party positive fair =
      let logged = log_event p turn.now "referee" "status" announcement null (some agent) in
      let prompted =
        send_prompt upper logged turn.conversation agent role (stateless logged.trace.transcript)
          question in
      elim (Bool-cases turn.cut_before) [
        | inl e ↦ rw e (cancelled-Follows is_digit k plan (agent ∷ []) p (steady, done, all))
        | inr e ↦ rw e (
            run_agent_turn-Follows k p.next_turn (stage_of p.next_turn) plan agent
              (allocate_occurrence prompted).1 turn
              (record {
                numbered = steady.numbered;
                number = steady.next;
                next = refl;
                made = steady.made;
                counted = steady.counted;
                queue = steady.queue;
                quiet =
                    log_status-IsQuiet p turn.now "referee" announcement null (some agent)
                      null_unmarked steady.quiet;
              })
              done all party positive fair)
      ]
