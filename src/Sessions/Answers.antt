-- ===== src/Sessions/Answers.antt =====
-- The answers of a session. While it runs, agent_collab/referee.py picks each completed turn's
-- answer (`_find_turn_answer`) and agent_collab/daemon.py keeps the last of each agent; after a
-- restart, `_derive_restored_answers` finds them again in the persisted events.
use Prim.Native.String.{◌++◌ as ◌<>◌}
use agent_collab.Base.{
  ℕ, ◌+◌, ◌-◌, ◌*◌, String, Bool, false, not, ◌&&◌, Option, none, some, List, [], ◌∷◌, map, drop,
  get_elem?, leb, if◌then◌else◌, ◌==◌,
}
use agent_collab.Base.Text.{is_truthy, strip, byte_length, take_bytes, decimal}
use agent_collab.Base.Dict.{Dict, get, put, remove}
use agent_collab.Base.Values.{Value, str, obj, get_field, is_true}
use agent_collab.Events.{Event}
use agent_collab.Sessions.{Answer}
use agent_collab.Sessions.Recording.{text_value}

-- MAX_FULL_TOOL_BYTES
abbrev pub max_tool_bytes : ℕ
max_tool_bytes = 64 * 1024

-- _truncate_text
unfoldable pub truncate_text : String → ℕ → String
unfolding byte_length take_bytes decimal
truncate_text text limit =
    if leb (byte_length text) limit
    then text
    else take_bytes limit text
      <> ("\n+" <> (decimal (byte_length text - limit) <> " bytes truncated, see transcript file"))

-- A message that can be an answer: of type message, not an error, not blank.
unfoldable pub is_message : Event → Bool
unfolding strip
is_message e = (e.type == "message") && not (e.source == "error") && is_truthy (strip e.text)

-- `isinstance(raw, dict) and raw.get("final")`
unfoldable pub is_final : Value → Bool
unfolding get_field is_true
is_final (obj d) = is_true (get_field d "final")
is_final _ = false

abbrev pub is_agent : Option String → String → Bool
is_agent none a = false
is_agent (some b) a = b == a

-- The test in the loop of `_find_turn_answer`.
unfoldable pub is_answer : String → Event → Bool
unfolding is_message
is_answer agent e = is_agent e.agent_id agent && is_message e

-- The loop of `_find_turn_answer` from index `i`: `answer_index` and `final_index`.
unfoldable pub scan_answers : String → ℕ → List Event → Option ℕ → Option ℕ → Option ℕ × Option ℕ
unfolding is_answer is_final
scan_answers agent i [] answer final = (answer, final)
scan_answers agent i (e ∷ es) answer final =
    scan_answers agent (i + 1) es (if is_answer agent e then some i else answer)
      (if is_answer agent e && is_final e.raw then some i else final)

abbrev pub first_of_two {ℓ} : {A : Type ℓ} → Option A → Option A → Option A
first_of_two none b = b
first_of_two (some a) b = some a

abbrev pub answer_from : ℕ → Option Event → Option Answer
answer_from i none = none
answer_from i (some e) = some (record { text = e.text; event_id = i; timestamp = e.timestamp })

unfoldable pub answer_at : List Event → Option ℕ → Option Answer
answer_at transcript none = none
answer_at transcript (some i) = answer_from i (get_elem? transcript i)

-- Referee._find_turn_answer
unfoldable pub find_turn_answer : List Event → ℕ → String → Option Answer
unfolding scan_answers answer_at
find_turn_answer transcript span_start agent =
    let (answer, final) = scan_answers agent span_start (drop span_start transcript) none none in
    answer_at transcript (first_of_two final answer)

-- One entry of `answers` in a session's result.
pub record AgentAnswer : Type 0 where
  pub agent_id : String
  pub text : String
  pub event_id : ℕ
  pub timestamp : String

abbrev pub shown_answer : String → Answer → AgentAnswer
shown_answer agent a = record {
  agent_id = agent;
  text = truncate_text a.text max_tool_bytes;
  event_id = a.event_id;
  timestamp = a.timestamp;
}

-- _session_answers of a live session
unfoldable pub live_answers : Dict Answer → List AgentAnswer
live_answers ledger = map (λ e. shown_answer e.0 e.1) ledger

-- `slot`: the last message and the last final message of an agent in its current turn
pub record Slot : Type 0 where
  pub last : Option AgentAnswer
  pub final : Option AgentAnswer

-- The two dicts of `_derive_restored_answers`.
pub record Derived : Type 0 where
  pub ledger : Dict AgentAnswer
  pub pending : Dict Slot

-- `raw.get("turn_outcome")`, if both are dicts
unfoldable pub raw_outcome : Value → Option Value
unfolding get_field
raw_outcome (obj d) = elim (get_field d "turn_outcome") [ obj o ↦ some (obj o) | _ ↦ none ]
raw_outcome _ = none

abbrev pub field_of : Value → String → Value
field_of (obj d) k = get_field d k
field_of v k = v

abbrev pub chosen : Option Slot → Option AgentAnswer
chosen none = none
chosen (some slot) = first_of_two slot.final slot.last

abbrev pub is_completed_text : Value → Bool
is_completed_text (str s) = s == "completed"
is_completed_text _ = false

abbrev pub commit_answer : Dict AgentAnswer → String → Option AgentAnswer → Dict AgentAnswer
commit_answer ledger agent none = ledger
commit_answer ledger agent (some a) = put ledger agent a

unfoldable pub close_for : Derived → (completed : Bool) → Option String → Derived
close_for d completed none = d
close_for d completed (some agent) = record {
  ledger =
      if completed then commit_answer d.ledger agent (chosen (get d.pending agent)) else d.ledger;
  pending = remove d.pending agent;
}

-- A turn's boundary: the agent's slot is taken out, and committed if the turn completed.
unfoldable pub close_turn : Derived → Value → Derived
unfolding close_for
close_turn d outcome =
    close_for d (is_completed_text (field_of outcome "outcome"))
      (text_value (field_of outcome "agent_id"))

abbrev pub slot_or_new : Option Slot → Slot
slot_or_new none = record { last = none; final = none }
slot_or_new (some slot) = slot

-- An agent's slot after a message.
abbrev pub answer_slot : String → ℕ → Event → Option Slot → Slot
answer_slot agent i e before =
    let entry : AgentAnswer =
      shown_answer agent (record { text = e.text; event_id = i; timestamp = e.timestamp }) in
    record {
      last = some entry;
      final = if is_final e.raw then some entry else (slot_or_new before).final;
    }

unfoldable pub note_for : Derived → ℕ → Event → Option String → Derived
unfolding is_message is_final
note_for d i e none = d
note_for d i e (some agent) =
    if is_truthy agent && is_message e
    then record d { pending = put d.pending agent (answer_slot agent i e (get d.pending agent)) }
    else d

-- A message: it becomes its agent's last one, and final one if it is marked.
unfoldable pub note_message : Derived → ℕ → Event → Derived
unfolding note_for
note_message d i e = note_for d i e e.agent_id

unfoldable pub step_for : Derived → ℕ → Event → Option Value → Derived
unfolding close_turn note_message
step_for d i e (some outcome) = close_turn d outcome
step_for d i e none = note_message d i e

-- The body of the loop of `_derive_restored_answers`.
unfoldable pub derive_step : Derived → ℕ → Event → Derived
unfolding raw_outcome step_for
derive_step d i e = step_for d i e (raw_outcome e.raw)

unfoldable pub derive_from : Derived → ℕ → List Event → Derived
unfolding derive_step
derive_from d i [] = d
derive_from d i (e ∷ es) = derive_from (derive_step d i e) (i + 1) es

-- _derive_restored_answers
unfoldable pub restored_answers : List Event → List AgentAnswer
unfolding derive_from
restored_answers events =
    map (λ e. e.1) (derive_from (record { ledger = []; pending = [] }) 0 events).ledger
