-- ===== src/Sessions/Turns.antt =====
-- The turns of a session as agent_collab/referee.py logs them: where a turn's events begin, what its
-- agent says, and how `_commit_outcome` ends it. Turns of several agents may overlap.
use agent_collab.Base.{
  ℕ, String, ◌≡◌, true, Option, none, some, List, [], ◌∷◌, ◌++◌, length, if◌then◌else◌,
}
use agent_collab.Base.Text.{is_truthy}
use agent_collab.Base.Dict.{Dict, get, put, remove}
use agent_collab.Base.Values.{obj, end, field}
use agent_collab.Events.{Event}
use agent_collab.Outcomes.Evidence.{is_completed}
use agent_collab.Outcomes.Records.{TurnOutcomeRecord, record_to_dict}
use agent_collab.Sessions.{Answer}
use agent_collab.Sessions.Answers.{find_turn_answer, raw_outcome, is_message}

-- The boundary event of a turn. Its text tells the outcome in words.
unfoldable pub boundary : (now text : String) → TurnOutcomeRecord → Event
boundary now text r = record {
  timestamp = now;
  source = "referee";
  type = "status";
  text = text;
  raw = obj (field "turn_outcome" (obj (record_to_dict r)) end);
  agent_id = some r.agent_id;
  provider_session = none;
}

-- The log, the index at which the events of each running turn begin, and the answer ledger.
pub record Trace : Type 0 where
  pub transcript : List Event
  pub active : Dict ℕ
  pub ledger : Dict Answer

abbrev pub keep_answer : Dict Answer → String → Option Answer → Dict Answer
keep_answer ledger agent none = ledger
keep_answer ledger agent (some a) = put ledger agent a

unfoldable pub begin_turn : Trace → String → Trace
begin_turn t agent = record t { active = put t.active agent (length t.transcript) }

unfoldable pub emit : Trace → Event → Trace
emit t e = record t { transcript = t.transcript ++ e ∷ [] }

-- The end of a turn that began at `span_start`: the answer is looked up, the boundary is logged, and
-- the answer is recorded.
unfoldable pub commit_outcome :
    Trace → (now text : String) → TurnOutcomeRecord → (span_start : ℕ) → Trace
unfolding find_turn_answer boundary
commit_outcome t now text r span_start = record {
  transcript = t.transcript ++ boundary now text r ∷ [];
  active = remove t.active r.agent_id;
  ledger =
      if is_completed r.outcome
      then keep_answer t.ledger r.agent_id (find_turn_answer t.transcript span_start r.agent_id)
      else t.ledger;
}

-- One step. An agent speaks only within a turn of its own, and no event of a backend carries the
-- mark of a boundary in its payload.
pub data TurnStep : Trace → Trace → Type 0 where
  begins :
      (t : Trace) (agent : String) → get t.active agent ≡ none → TurnStep t (begin_turn t agent)
  emits :
      (t : Trace) (e : Event)
      → raw_outcome e.raw ≡ none
      → ((agent : String)
          → e.agent_id ≡ some agent
          → is_message e ≡ true
          → (n : ℕ) × (get t.active agent ≡ some n))
      → TurnStep t (emit t e)
  commits :
      (t : Trace) (now text : String) (r : TurnOutcomeRecord) (n : ℕ)
      → get t.active r.agent_id ≡ some n
      → is_truthy r.agent_id ≡ true
      → TurnStep t (commit_outcome t now text r n)

pub data TurnReach (s : Trace) : Trace → Type 0 where
  here : TurnReach s s
  next : {t u : Trace} → TurnReach s t → TurnStep t u → TurnReach s u

abbrev pub no_turns : Trace
no_turns = record { transcript = []; active = []; ledger = [] }
