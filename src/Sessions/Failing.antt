-- ===== src/Sessions/Failing.antt =====
-- A session that its run fails: `_set_status` of agent_collab/daemon.py with a failure.
use agent_collab.Base.{String, ◌≡◌, refl, Bool, true, false, some}
use agent_collab.Outcomes.Records.{SessionFailure}
use agent_collab.Sessions.{
  Status, running, awaiting_input, done, stopped, interrupted, other, failed, is_terminal, is_live,
  World,
}
use agent_collab.Sessions.Lifecycle.{failure, set_status}
use agent_collab.Sessions.Invariant.{persist-managed}

-- The session ended at `now` as failed, with this failure and its message.
abbrev pub IsFailed : (now : String) → SessionFailure → World → Type 0
IsFailed now f v =
    (v.state.status ≡ failed)
    × (v.state.ended_at ≡ some now)
    × (v.state.failure ≡ some f)
    × (v.state.error ≡ f.message)

live_not_terminal : (s : Status) → is_live s ≡ true → is_terminal s ≡ false
live_not_terminal running h = refl
live_not_terminal awaiting_input h = refl
live_not_terminal done h = cc
live_not_terminal failed h = cc
live_not_terminal stopped h = cc
live_not_terminal interrupted h = cc
live_not_terminal (other s) h = refl

-- A session that is live ends as failed with the failure that is reported.
pub set_status-IsFailed :
    (disk : Bool) (now : String) (w : World) (f : SessionFailure)
    → is_live w.state.status ≡ true
    → IsFailed now f (set_status disk now w failed (failure f)).0
unfolding set_status agent_collab.Sessions.Lifecycle.transition_state
    agent_collab.Sessions.Lifecycle.apply_report
set_status-IsFailed disk now w f live =
    rw (live_not_terminal w.state.status live, live, persist-managed) (refl, refl, refl, refl)
