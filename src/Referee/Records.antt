-- ===== src/Referee/Records.antt =====
-- The record of a turn is made, whatever ended the turn, for an agent that the config knows.
use Prim.Native.Char.{Char, code}
use agent_collab.Base.{
  ℕ, ◌≤◌, String, ◌≡◌, refl, ap, Bool, true, ◌&&◌, arith, leb, ◌==◌, eq_iff, ok, Bool-cases, inl,
  inr,
}
use agent_collab.Base.Text.{is_truthy}
use agent_collab.Base.Values.{ℤ, str, int, pos}
use agent_collab.Outcomes.Turn.{TurnOutcome}
use agent_collab.Outcomes.Canonical.{IsCanonical, make_outcome_again}
use agent_collab.Outcomes.Records.{
  TurnOutcomeRecord, is_identifier, is_positive, check_stage, check_agent, check_backend,
  make_record, from_outcome,
}
use agent_collab.Outcomes.Reload.{IsRecord, outcome_of}
use agent_collab.Referee.Arbitration.{Wake, returned}
use agent_collab.Referee.Verdicts.{IsVerdict, arbitrate-IsVerdict}
use agent_collab.Referee.Progress.{Setup, canonical_backend, turn_id_of}
use agent_collab.Referee.Supervision.{turn_record}
use agent_collab.Referee.Numbering.{check_turn_id-turn_id_of}

-- An agent with a valid id, and with a backend that has a name of the product.
pub record IsParty (setup : Setup) (agent : String) : Type 0 where
  pub id : check_agent (str agent) ≡ ok agent
  pub backend : String
  pub configured : canonical_backend setup agent ≡ ok backend
  pub supported : check_backend (str backend) ≡ ok backend

-- The stage of a turn is an int.
abbrev pub IsCounted : TurnOutcomeRecord → Type 0
IsCounted r = (z : ℤ) × (r.stage_index ≡ int z)

-- What a runner returns was made by `TurnOutcome`.
abbrev pub IsSound : Wake → Type 0
IsSound w = (o : TurnOutcome) → w.runner ≡ returned o → IsCanonical o

pub check_agent-truthy :
    (agent : String) → check_agent (str agent) ≡ ok agent → is_truthy agent ≡ true
unfolding check_agent is_identifier
check_agent-truthy agent h = elim (Bool-cases (agent == "")) [
  | inr e ↦ rw e refl
  | inl e ↦ absurd (go agent ((eq_iff agent "").0 e) h)
]
  where
    go : (a : String) → a ≡ "" → check_agent (str a) ≡ ok a → ⊥
    go a e k = cc (ap (λ x. is_identifier x) e, k)

module _ (is_digit : Char → Bool)
    (ascii : (c : Char) → (leb 48 (code c) && leb (code c) 57) ≡ true → is_digit c ≡ true)
    (setup : Setup) where
  -- A record of turn number `n` of an agent, with the outcome that was arbitrated.
  pub record IsTurnRecord (n : ℕ) (agent : String) (w : Wake) (r : TurnOutcomeRecord) : Type 0 where
    pub turn : r.turn_id ≡ turn_id_of n
    pub owner : r.agent_id ≡ agent
    pub made : IsRecord is_digit r
    pub verdict : IsVerdict w (outcome_of r)
    pub counted : IsCounted r

  stage_checks : (stage : ℕ) → 1 ≤ stage → check_stage (int (pos stage)) ≡ ok tt
  unfolding check_stage is_positive
  stage_checks stage h = ground arith

  pub turn_record-IsTurnRecord :
      (n stage : ℕ) (agent : String) (w : Wake)
      → IsParty setup agent
      → 1 ≤ stage
      → IsSound w
      → (r : TurnOutcomeRecord) × (turn_record is_digit setup (turn_id_of n) stage agent w ≡ ok r)
        × IsTurnRecord n agent w r
  unfolding turn_record from_outcome make_record
  turn_record-IsTurnRecord n stage agent w party h sound =
      let (o, judged, verdict) = arbitrate-IsVerdict w sound in
      let r : TurnOutcomeRecord = record {
        turn_id = turn_id_of n;
        stage_index = int (pos stage);
        agent_id = agent;
        backend = party.backend;
        outcome = o.outcome;
        code = o.code;
        message = o.message;
        provider_stop_reason = o.provider_stop_reason;
        process_exit_code = o.process_exit_code;
        retry_after_seconds = o.retry_after_seconds;
      } in
      (
        r,
        simp (
          judged,
          party.configured,
          check_turn_id-turn_id_of is_digit ascii n,
          stage_checks stage h,
          party.id,
          party.supported,
          make_outcome_again o verdict.canonical,
        ),
        record {
          turn = refl;
          owner = refl;
          made = record {
            turn = check_turn_id-turn_id_of is_digit ascii n;
            stage = stage_checks stage h;
            agent = party.id;
            backend_name = party.supported;
            canonical = verdict.canonical;
          };
          verdict = verdict;
          counted = (pos stage, refl);
        },
      )
