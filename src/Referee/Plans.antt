-- ===== src/Referee/Plans.antt =====
-- What a run of a referee is asked to do: the agents of its turns, in order.
use agent_collab.Base.{String, ◌≡◌, Bool, true, false, Option, none, some, List, [], ◌∷◌, ◌++◌, All}
use agent_collab.Referee.Progress.{Setup}
use agent_collab.Referee.Interaction.{sole_workflow_agent, target_or, Directed, StageRun, Meeting}
use agent_collab.Referee.Records.{IsParty}
use agent_collab.Referee.Closing.{IsFair}
use agent_collab.Referee.Logging.{IsPosted}

-- The agents that the inputs and the stages of a run ask for, in the order of the turns.
abbrev pub asked : Option String → List String
asked none = []
asked (some agent) = agent ∷ []

module _ (members : List String) where
  abbrev pub target_of : Directed → Option String
  target_of d = target_or d.0.target (sole_workflow_agent members)

  abbrev pub plan_of_inputs : List Directed → List String
  plan_of_inputs [] = []
  plan_of_inputs (d ∷ ds) = asked (target_of d) ++ plan_of_inputs ds

  abbrev pub plan_of_waits : List (Directed × List Directed) → List String
  plan_of_waits [] = []
  plan_of_waits ((d, ds) ∷ rest) = plan_of_inputs (d ∷ ds) ++ plan_of_waits rest

  abbrev pub plan_of_stage : Bool → StageRun → List String
  plan_of_stage true s = plan_of_inputs s.pending ++ s.agent ∷ []
  plan_of_stage false s = s.agent ∷ []

  abbrev pub plan_of_stages : Bool → List StageRun → List String
  plan_of_stages interactive [] = []
  plan_of_stages interactive (s ∷ ss) = plan_of_stage interactive s ++ plan_of_stages interactive ss

  abbrev pub plan_of : Bool → Meeting → List String
  plan_of true m =
      plan_of_stages true m.stages ++ (plan_of_inputs m.pending ++ plan_of_waits m.inputs)
  plan_of false m = plan_of_stages false m.stages

module _ (setup : Setup) (members : List String) where
  -- The agents that a run may call are in the config, and their runners fair.
  abbrev pub IsDirectable : Directed → Type 0
  IsDirectable d =
      ((agent : String) → target_of members d ≡ some agent → IsParty setup agent) × IsFair d.1

  abbrev pub IsStageable : StageRun → Type 0
  IsStageable s = All IsDirectable s.pending × IsParty setup s.agent × IsFair s.turn

  pub record IsMeeting (m : Meeting) : Type 0 where
    pub stages : All IsStageable m.stages
    pub pending : All IsDirectable m.pending
    pub late : All IsPosted m.late
    pub last : All IsPosted m.last
    pub inputs : All (λ w. IsDirectable w.0 × All IsDirectable w.1) m.inputs
