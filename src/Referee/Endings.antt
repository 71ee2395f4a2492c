-- ===== src/Referee/Endings.antt =====
-- How the end of a referee's run becomes the end of its session: the `except` clauses of
-- `_run_session` in agent_collab/daemon.py, around `Referee.run` of agent_collab/referee.py.
use Prim.Native.Char.{Char, code}
use agent_collab.Base.{
  ℕ, String, ◌≡◌, ◌≢◌, refl, subst, Bool, true, ◌&&◌, some, List, [], ◌∷◌, ◌++◌, All, leb, Error,
  ok,
}
use agent_collab.Base.Values.{ℤ, int, Float}
use agent_collab.Outcomes.Codes.{completed}
use agent_collab.Outcomes.Records.{TurnOutcomeRecord}
use agent_collab.Outcomes.Reload.{IsRecord}
use agent_collab.Outcomes.Failures.{failure_of, IsRecord-from_record}
use agent_collab.Sessions.{failed, is_live, World}
use agent_collab.Sessions.Answers.{live_answers, restored_answers}
use agent_collab.Sessions.Lifecycle.{failure, set_status}
use agent_collab.Sessions.Failing.{IsFailed, set_status-IsFailed}
use agent_collab.Sessions.Ending.{
  RunEnd, returned, cancelled as run_cancelled, required_turn_failed, parallel_stage_failed,
  crashed, publish_failure, finish_run,
}
use agent_collab.Sessions.Recovery.{restored_answers-live_answers}
use agent_collab.Sessions.Turns.{TurnReach, no_turns}
use agent_collab.Referee.Progress.{
  Progress, required_failed, parallel_failed, cancelled, broken, Run, going, halted, state, Setup,
}
use agent_collab.Referee.Interaction.{Meeting, run_stages}
use agent_collab.Referee.Records.{IsCounted}
use agent_collab.Referee.Plans.{plan_of, IsMeeting}
use agent_collab.Referee.Invariant.{IsHalted, EndsWith, Follows}
use agent_collab.Referee.Runs.{run_stages-Follows}

-- What the session gets from a run: the paths of the logs, or the exception. `name_of` is the name of
-- another exception's class.
unfoldable pub end_of : (name_of : Error → String) → (jsonl markdown : String) → Run → RunEnd
end_of name_of jsonl markdown (going p) = returned jsonl markdown
end_of name_of jsonl markdown (halted p (required_failed r)) = required_turn_failed r
end_of name_of jsonl markdown (halted p (parallel_failed stage)) = parallel_stage_failed stage
end_of name_of jsonl markdown (halted p cancelled) = run_cancelled
end_of name_of jsonl markdown (halted p (broken e)) = crashed (name_of e)

All-last : {A : Type 0} (P : A → Type 0) (xs : List A) (x : A) → All P (xs ++ x ∷ []) → P x
All-last P [] x h = h.0
All-last P (y ∷ xs) x h = All-last P xs x h.1

Follows-TurnReach :
    (is_digit : Char → Bool) (k : ℕ) (plan : List String) (run : Run)
    → Follows is_digit k plan run
    → TurnReach no_turns (state run).trace
Follows-TurnReach is_digit k plan (going p) h = h.0.quiet.steps
Follows-TurnReach is_digit k plan (halted p x) h = h.0.steps

failure_published :
    (is_digit : Char → Bool) (disk : Bool) (now : String) (w : World) (k : ℕ) (p : Progress)
    (r : TurnOutcomeRecord)
    → IsHalted is_digit k p
    → EndsWith is_digit p r
    → r.outcome ≢ completed
    → is_live w.state.status ≡ true
    → (z : ℤ) × (c : String) × (v : World) × (r.stage_index ≡ int z)
      × (r.code ≡ some c)
      × (finish_run is_digit disk now w (required_turn_failed r) ≡ ok v)
      × IsFailed now (failure_of r z c) v
unfolding finish_run publish_failure
failure_published is_digit disk now w k p r steady ends other live =
    let made =
      All-last (IsRecord is_digit) ends.front r
        (subst (All (IsRecord is_digit)) ends.turns steady.made) in
    let (z, counted) =
      All-last IsCounted ends.front r (subst (All IsCounted) ends.turns steady.counted) in
    let (c, coded, from) = IsRecord-from_record is_digit r z made counted other in
    (
      z,
      c,
      (set_status disk now w failed (failure (failure_of r z c))).0,
      counted,
      coded,
      rw from refl,
      set_status-IsFailed disk now w (failure_of r z c) live,
    )

module _ (upper : String → String) (is_digit : Char → Bool)
    (ascii : (c : Char) → (leb 48 (code c) && leb (code c) 57) ≡ true → is_digit c ≡ true)
    (setup : Setup) (task : String) (members : List String) where
  -- If the agents that it may call are valid, the ASCII digits count as digits, and the runners
  -- return canonical outcomes and mark no event as a boundary, and a run, whatever unmarked
  -- messages are posted to it, ends because a required turn failed it while its session is live,
  -- then that turn is its last, and the session ends now as failed, with a failure that keeps the
  -- fields of that turn's record, and its message as the error.
  pub finish_run-run_stages :
      (interactive : Bool) (workflow closing logs : String) (timeout : Float) (m : Meeting)
      (disk : Bool) (now : String) (w : World) (name_of : Error → String) (jsonl markdown : String)
      (p : Progress) (r : TurnOutcomeRecord)
      → IsMeeting setup members m
      → run_stages upper is_digit setup task members interactive workflow closing logs timeout m
        ≡ halted p (required_failed r)
      → is_live w.state.status ≡ true
      → EndsWith is_digit p r
        × ((z : ℤ) × (c : String) × (v : World) × (r.stage_index ≡ int z)
            × (r.code ≡ some c)
            × (finish_run is_digit disk now w (
                  end_of name_of jsonl markdown (
                    run_stages upper is_digit setup task members interactive workflow closing logs
                      timeout m))
                ≡ ok v)
            × IsFailed now (failure_of r z c) v)
  unfolding end_of
  finish_run-run_stages interactive workflow closing logs timeout m disk now w name_of jsonl
        markdown p r able e live =
      let h : Follows is_digit 0 (plan_of members interactive m) (halted p (required_failed r)) =
        subst (Follows is_digit 0 (plan_of members interactive m)) e (
          run_stages-Follows upper is_digit ascii setup task members interactive workflow closing
            logs timeout m able) in
      let (ends, other) = h.2 in
      (ends, rw e (failure_published is_digit disk now w 0 p r h.0 ends other live))

  -- If the agents that it may call are valid, the ASCII digits count as digits, and the runners
  -- return canonical outcomes and mark no event as a boundary, then whatever unmarked messages
  -- are posted to a run, and however it ends, also where it is cancelled, the answers that a restart
  -- reconstructs from its log are those that it recorded.
  pub restored_answers-run_stages :
      (interactive : Bool) (workflow closing logs : String) (timeout : Float) (m : Meeting)
      → IsMeeting setup members m
      → restored_answers
          (state (
            run_stages upper is_digit setup task members interactive workflow closing logs timeout
              m)).trace.transcript
        ≡ live_answers
            (state (
              run_stages upper is_digit setup task members interactive workflow closing logs timeout
                m)).trace.ledger
  restored_answers-run_stages interactive workflow closing logs timeout m able =
      restored_answers-live_answers (
        Follows-TurnReach is_digit 0 (plan_of members interactive m) _ (
          run_stages-Follows upper is_digit ascii setup task members interactive workflow closing
            logs timeout m able))
