-- ===== src/Events.antt =====
-- agent_collab/events.py: session events, and the coercion of malformed sources and types.
pub mod Coercion
mod Examples
use Prim.Native.String.{◌++◌ as ◌<>◌}
use agent_collab.Base.{
  ℕ, ◌+◌, ◌-◌, String, Bool, true, false, not, ◌&&◌, ◌||◌, Option, none, some, List, [], ◌∷◌, ◌++◌,
  any, length, ltb, leb, if◌then◌else◌, ◌==◌,
}
use agent_collab.Base.Text.{member, count_chars, take_chars}
use agent_collab.Base.Values.{Value, null, str, Fields, end, field}
use agent_collab.Outcomes.Fields.{of_text}

-- VALID_SOURCES
unfoldable pub is_source : String → Bool
is_source s =
    member s
      ("human" ∷ "referee" ∷ "claude" ∷ "codex" ∷ "antigravity" ∷ "xai" ∷ "tool" ∷ "error" ∷ [])

-- VALID_TYPES
unfoldable pub is_type : String → Bool
is_type s = member s ("message" ∷ "tool_call" ∷ "command" ∷ "file_change" ∷ "status" ∷ "error" ∷ [])

-- The trusted identity that a backend attaches. It is not part of the wire form.
pub record Identity : Type 0 where
  pub agent_id : Value
  pub provider_session_id : Value
  pub provider_session_kind : Value

pub record Event : Type 0 where
  pub timestamp : String
  pub source : String
  pub type : String
  pub text : String
  pub raw : Value
  pub agent_id : Option String
  pub provider_session : Option Identity

-- _WARNED_COERCIONS_CAP
abbrev pub warned_cap : ℕ
warned_cap = 64

-- `_warned_coercions`, a set of (field, value)
abbrev pub Warned : Type 0
Warned = List (String × String)

unfoldable pub is_warned : Warned → String → String → Bool
is_warned warned name value = any (λ e. (e.0 == name) && (e.1 == value)) warned

-- _warn_coercion: the new set, and whether a warning is logged
unfoldable pub warn_coercion : Warned → String → String → Warned × Bool
unfolding is_warned
warn_coercion warned name value =
    if is_warned warned name value
    then (warned, false)
    else if leb warned_cap (length warned)
    then ((name, value) ∷ [], true)
    else ((name, value) ∷ warned, true)

-- `if source not in VALID_SOURCES: ...`
unfoldable pub coerce_source : Warned → String → String × Warned
coerce_source warned source =
    if is_source source
    then (source, warned)
    else ("error", (warn_coercion warned "source" source).0)

unfoldable pub coerce_type : Warned → String → String × Warned
coerce_type warned type =
    if is_type type then (type, warned) else ("status", (warn_coercion warned "type" type).0)

-- Event.create at the time `now`
unfoldable pub create :
    Warned → (now source type text : String) → Value → Option String → Event × Warned
create warned now source type text raw agent_id =
    let (source', warned') = coerce_source warned source in
    let (type', warned'') = coerce_type warned' type in
    (
      record {
        timestamp = now;
        source = source';
        type = type';
        text = text;
        raw = raw;
        agent_id = agent_id;
        provider_session = none;
      },
      warned'',
    )

-- mark_provider_session
unfoldable pub mark_provider_session : Event → Value → Value → Value → Event
mark_provider_session e agent_id session_id kind = record e {
  provider_session = some (record {
    agent_id = agent_id;
    provider_session_id = session_id;
    provider_session_kind = kind;
  });
}

-- to_dict
unfoldable pub event_to_dict : Event → Fields
event_to_dict e = field "timestamp" (str e.timestamp) (
    field "source" (str e.source) (
      field "type" (str e.type) (
        field "text" (str e.text) (field "raw" e.raw (field "agent_id" (of_text e.agent_id) end)))))

-- The cut of `compact_json`, on the text that json.dumps made.
unfoldable pub compact : String → ℕ → String
unfolding count_chars take_chars
compact text limit =
    if ltb limit (count_chars text) then take_chars (limit - 1) text <> "..." else text
