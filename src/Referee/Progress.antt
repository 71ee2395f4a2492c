-- ===== src/Referee/Progress.antt =====
-- The state of a running referee, and how its coroutines end. What the referee reports to the daemon
-- by its callbacks is kept as the last value reported.
use Prim.Native.String.{◌++◌ as ◌<>◌}
use agent_collab.Base.{
  ℕ, suc, String, Bool, false, Option, none, some, List, [], ◌∷◌, if◌then◌else◌, Error, Result, ok,
  err, key_error,
}
use agent_collab.Base.Text.{is_truthy, decimal}
use agent_collab.Base.Dict.{Dict, get}
use agent_collab.Base.Values.{Value}
use agent_collab.Events.{Event, create}
use agent_collab.Outcomes.Records.{TurnOutcomeRecord}
use agent_collab.Sessions.Turns.{Trace, no_turns, emit}

-- `turns`: the outcomes that were committed; `taken` and `finished`: the inputs that were got from the
-- queue and those that were reported done.
pub record Progress : Type 0 where
  pub trace : Trace
  pub turns : List TurnOutcomeRecord
  pub next_turn : ℕ
  pub watermarks : Dict ℕ
  pub prompts : List (String × String)
  pub turn_active : Bool
  pub accepting : Bool
  pub appender : Bool
  pub announced : List String
  pub taken : ℕ
  pub finished : ℕ

-- Referee.__init__, with an empty transcript
abbrev pub fresh : Progress
fresh = record {
  trace = no_turns;
  turns = [];
  next_turn = 1;
  watermarks = [];
  prompts = [];
  turn_active = false;
  accepting = false;
  appender = false;
  announced = [];
  taken = 0;
  finished = 0;
}

-- RequiredTurnFailed, ParallelStageFailed, CancelledError, or another exception.
pub data Halt : Type 0 where
  required_failed : TurnOutcomeRecord → Halt
  parallel_failed : ℕ → Halt
  cancelled : Halt
  broken : Error → Halt

pub data Run : Type 0 where
  going : Progress → Run
  halted : Progress → Halt → Run

abbrev pub and_then : Run → (Progress → Run) → Run
and_then (going p) next = next p
and_then (halted p h) next = halted p h

-- try: ... finally: ...
abbrev pub finally : (Progress → Progress) → Run → Run
finally last (going p) = going (last p)
finally last (halted p h) = halted (last p) h

-- Where a run is, whether it goes on or not.
abbrev pub state : Run → Progress
state (going p) = p
state (halted p h) = p

-- An agent of the config, as far as a turn reads it.
pub record AgentConfig : Type 0 where
  pub type : String
  pub backend : Option String

pub record Setup : Type 0 where
  pub mock : Bool
  pub agents : Dict AgentConfig
  pub agent_backends : Option (Dict String)

-- _backend_for
unfoldable pub backend_for : Setup → String → Option String
unfolding get
backend_for s agent = elim s.agent_backends [ none ↦ none | some backends ↦ get backends agent ]

-- `a or b` of texts
abbrev pub or_text : Option String → String → String
or_text none other = other
or_text (some a) other = if is_truthy a then a else other

-- _canonical_backend
unfoldable pub canonical_backend : Setup → String → Result String
unfolding backend_for get
canonical_backend s agent = if s.mock then ok "mock" else elim (get s.agents agent) [
  | none ↦ err key_error
  | some a ↦ ok (a.type <> ("_" <> or_text (backend_for s agent) (or_text a.backend "cli")))
]

-- _allocate_occurrence
unfoldable pub turn_id_of : ℕ → String
turn_id_of n = "turn-" <> decimal n

unfoldable pub allocate_occurrence : Progress → String × Progress
unfolding turn_id_of
allocate_occurrence p = (turn_id_of p.next_turn, record p { next_turn = suc p.next_turn })

-- _emit of an event that the referee creates
unfoldable pub log_event :
    Progress → (now source type text : String) → Value → (agent : Option String) → Progress
unfolding create emit
log_event p now source type text raw agent = record p {
  trace = emit p.trace (create [] now source type text raw agent).0;
}

-- The events that the daemon posts through the registered appender, which is _emit.
unfoldable pub emit_posts : Trace → List Event → Trace
unfolding emit
emit_posts t [] = t
emit_posts t (e ∷ es) = emit_posts (emit t e) es

abbrev pub log_posts : Progress → List Event → Progress
log_posts p es = record p { trace = emit_posts p.trace es }
