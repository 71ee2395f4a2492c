-- ===== src/Referee/Overlaps.antt =====
-- Every interleaving of the members of a parallel stage keeps what holds while they run.
use Prim.Native.Char.{Char, code}
use agent_collab.Base.{
  ℕ, ◌≤◌, String, ◌≡◌, refl, sym, ap, ◌∙◌, Bool, true, ◌&&◌, Option, some, List, [], ◌∷◌, All, leb,
  ok,
}
use agent_collab.Base.Dict.{get}
use agent_collab.Referee.Arbitration.{Wake}
use agent_collab.Referee.Progress.{Progress, Setup}
use agent_collab.Referee.Supervision.{turn_record}
use agent_collab.Referee.Records.{turn_record-IsTurnRecord}
use agent_collab.Referee.Parallel.{
  Phase, waiting, running, Stage, MemberStep, starts, says, ends, member_step, run_members,
  agent_of,
}
use agent_collab.Referee.Members.{
  id_of, phase_completed, IsStaged, IsCalm, starts-IsStaged, says-IsStaged,
}
use agent_collab.Referee.Commits.{close_turn-recorded, committed-IsStaged}

module _ (is_digit : Char → Bool)
    (ascii : (c : Char) → (leb 48 (code c) && leb (code c) 57) ≡ true → is_digit c ≡ true)
    (setup : Setup) (stage_index : ℕ) (before : Progress) where
  ends-IsStaged :
      (s : Stage) (agent id : String) (n : ℕ) (wake : Wake) (stop : Bool) (now : String)
      → 1 ≤ stage_index
      → get s.phases agent ≡ some (running id n)
      → IsCalm setup (ends agent wake stop now)
      → IsStaged before s
      → IsStaged before (
          member_step is_digit setup stage_index s (ends agent wake stop now) (some (running id n)))
  unfolding member_step
  ends-IsStaged s agent id n wake stop now positive at (party, sound, calm) h =
      let (k, named) = h.numbered agent id (ap id_of at) in
      let (r, made, turned) =
        turn_record-IsTurnRecord is_digit ascii setup k stage_index agent wake party positive
          sound in
      let known : turn_record is_digit setup id stage_index agent wake ≡ ok r =
        ap (λ i. turn_record is_digit setup i stage_index agent wake) named ∙ made in
      let own : id_of (get s.phases agent) ≡ some r.turn_id =
        ap id_of at ∙ ap some (named ∙ sym turned.turn) in
      let (moved, kept) =
        close_turn-recorded is_digit ascii setup stage_index before wake stop now s.progress n r
          calm (h.fresh agent r.turn_id own) in
      rw (known, moved, kept)
        (committed-IsStaged is_digit ascii setup stage_index before s agent n now r own
          (ap phase_completed at) turned.owner h)

  member_step-IsStaged :
      (s : Stage) (step : MemberStep) (phase : Option Phase)
      → 1 ≤ stage_index
      → get s.phases (agent_of is_digit setup stage_index step) ≡ phase
      → IsCalm setup step
      → IsStaged before s
      → IsStaged before (member_step is_digit setup stage_index s step phase)
  unfolding member_step
  member_step-IsStaged s (starts agent) (some (waiting id)) positive at calm h =
      starts-IsStaged is_digit ascii setup stage_index before s agent id at h
  member_step-IsStaged s (says agent e) (some (running id n)) positive at calm h =
      says-IsStaged is_digit ascii setup stage_index before s agent id n e h
  member_step-IsStaged s (ends agent wake stop now) (some (running id n)) positive at calm h =
      ends-IsStaged s agent id n wake stop now positive at calm h
  member_step-IsStaged s _ _ positive at calm h = h

  pub run_members-IsStaged :
      (steps : List MemberStep) (s : Stage)
      → 1 ≤ stage_index
      → All (IsCalm setup) steps
      → IsStaged before s
      → IsStaged before (run_members is_digit setup stage_index s steps)
  unfolding run_members
  run_members-IsStaged [] s positive calm h = h
  run_members-IsStaged (step ∷ steps) s positive (calm, more) h =
      run_members-IsStaged steps _ positive more (
        member_step-IsStaged s step (get s.phases (agent_of is_digit setup stage_index step))
          positive refl calm h)
