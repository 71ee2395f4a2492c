-- ===== src/Referee/Examples.antt =====
-- The theorems on the referee, at two agents.
use Prim.Native.Char.{Char, code}
use agent_collab.Base.{
  ℕ, String, ◌≡◌, ◌≢◌, refl, subst, Bool, true, false, ◌&&◌, Option, none, some, List, [], ◌∷◌, leb,
  Error, ok, runtime_error, ◌==◌,
}
use agent_collab.Base.Text.{is_ascii_digit}
use agent_collab.Base.Values.{ℤ, int, pos, str, finite}
use agent_collab.Events.{Event}
use agent_collab.Outcomes.Codes.{completed, failed as failed_kind}
use agent_collab.Outcomes.Turn.{TurnOutcome}
use agent_collab.Outcomes.Canonical.{IsCanonical}
use agent_collab.Outcomes.Records.{TurnOutcomeRecord, check_agent}
use agent_collab.Outcomes.Failures.{failure_of}
use agent_collab.Sessions.Answers.{restored_answers, live_answers, raw_outcome}
use agent_collab.Sessions.Ending.{finish_run}
use agent_collab.Sessions.Examples.{message, session}
use agent_collab.Sessions.{World}
use agent_collab.Sessions.Failing.{IsFailed}
use agent_collab.Referee.Watermarks.{Told}
use agent_collab.Referee.Arbitration.{Wake, RunnerEnd, returned, runner_raised, arbitrate}
use agent_collab.Referee.Verdicts.{IsVerdict, arbitrate-IsVerdict}
use agent_collab.Referee.Progress.{Setup, Progress, required_failed, Run, halted, state}
use agent_collab.Referee.Supervision.{own, posted, Turn}
use agent_collab.Referee.Interaction.{Meeting, run_stages}
use agent_collab.Referee.Records.{IsParty}
use agent_collab.Referee.Closing.{IsFair}
use agent_collab.Referee.Plans.{IsMeeting}
use agent_collab.Referee.Invariant.{EndsWith}
use agent_collab.Referee.Endings.{end_of, finish_run-run_stages, restored_answers-run_stages}

abbrev pub as_is : String → String
as_is s = s

abbrev pub well_done : TurnOutcome
well_done = record {
  outcome = completed;
  code = none;
  message = none;
  provider_stop_reason = none;
  process_exit_code = none;
  retry_after_seconds = none;
}

abbrev pub wake_of : RunnerEnd → Wake
wake_of runner = record {
  runner = runner;
  deadline_done = false;
  stop_done = false;
  stop_set = false;
  wait_cancelled = false;
}

well_done-IsCanonical : IsCanonical well_done
unfolding agent_collab.Outcomes.Fields.canonical_message agent_collab.Outcomes.Turn.check_code
    agent_collab.Outcomes.Fields.safe_stop_reason agent_collab.Outcomes.Fields.safe_retry_after
well_done-IsCanonical = record { messages = refl; codes = refl; reasons = refl; seconds = refl }

pub returned_sound :
    (o : TurnOutcome) → (wake_of (returned well_done)).runner ≡ returned o → IsCanonical o
returned_sound o e = let same : well_done ≡ o = cc in subst IsCanonical same well_done-IsCanonical

pub raised_sound : (o : TurnOutcome) → (wake_of runner_raised).runner ≡ returned o → IsCanonical o
raised_sound o e = cc

arbitrate-IsVerdict_example :
    (o : TurnOutcome) × (arbitrate (wake_of (returned well_done)) ≡ ok o)
    × IsVerdict (wake_of (returned well_done)) o
arbitrate-IsVerdict_example = arbitrate-IsVerdict (wake_of (returned well_done)) returned_sound

abbrev own_words : Event
own_words = record message { agent_id = some "alice" }

abbrev peer_words : Event
peer_words = record message { text = "the tests pass"; agent_id = some "bob" }

-- alice is prompted without a conversation and speaks, is told of what bob then says, and speaks again.
abbrev told_of : Told
told_of = record {
  transcript = own_words ∷ peer_words ∷ own_words ∷ [];
  watermarks = ("alice", 2) ∷ [];
  since = 0;
  told = peer_words ∷ [];
}

abbrev pub setup : Setup
setup = record { mock = true; agents = []; agent_backends = none }

-- What is posted.
abbrev question : Event
question = record message { agent_id = none; source = "human" }

abbrev good_turn : Turn
good_turn = record {
  before = question ∷ [];
  cut_before = false;
  said = own message ∷ posted question ∷ [];
  wake = wake_of (returned well_done);
  cut_cleanup = false;
  stop_after = false;
  conversation = true;
  now = "10:00";
}

abbrev bad_turn : Turn
bad_turn = record good_turn { wake = wake_of runner_raised }

party : (agent : String) → check_agent (str agent) ≡ ok agent → IsParty setup agent
unfolding agent_collab.Referee.Progress.canonical_backend
    agent_collab.Outcomes.Records.check_backend agent_collab.Outcomes.Codes.is_backend
party agent h = record { id = h; backend = "mock"; configured = refl; supported = refl }

pub alice : IsParty setup "alice"
unfolding check_agent
alice = party "alice" refl

pub bob : IsParty setup "bob"
unfolding check_agent
bob = party "bob" refl

unmarked : raw_outcome message.raw ≡ none
unfolding raw_outcome
unmarked = refl

good : IsFair good_turn
good = record {
  sound = returned_sound;
  unmarked = (unmarked, ((unmarked, refl), tt));
  posts = ((unmarked, refl), tt);
}

bad : IsFair bad_turn
bad = record {
  sound = raised_sound;
  unmarked = (unmarked, ((unmarked, refl), tt));
  posts = ((unmarked, refl), tt);
}

pub ascii_digits :
    (c : Char) → (leb 48 (code c) && leb (code c) 57) ≡ true → is_ascii_digit c ≡ true
unfolding is_ascii_digit
ascii_digits c h = h

-- A message for bob before the second stage, whose turn fails.
abbrev meeting : Meeting
meeting = record {
  stages =
      record { pending = []; agent = "alice"; turn = good_turn }
      ∷ record {
        pending = (record { event = message; target = some "bob" }, good_turn) ∷ [];
        agent = "bob";
        turn = bad_turn;
      }
      ∷ [];
  pending = [];
  inputs = [];
  late = question ∷ [];
  timed_out = false;
  cut_summary = false;
  cut_end = false;
  last = question ∷ [];
  now = "10:00";
}

abbrev pub members : List String
members = "alice" ∷ "bob" ∷ []

meeting-IsMeeting : IsMeeting setup members meeting
meeting-IsMeeting = record {
  stages = ((tt, alice, good), ((((to_bob, good), tt), bob, bad), tt));
  pending = tt;
  late = ((unmarked, refl), tt);
  last = ((unmarked, refl), tt);
  inputs = tt;
}
  where
    to_bob : (a : String) → some "bob" ≡ some a → IsParty setup a
    to_bob a e = let same : "bob" ≡ a = cc in subst (IsParty setup) same bob

abbrev run : Run
run =
    run_stages as_is is_ascii_digit setup "fix it" members true "workflow" "closing" "logs"
      (finite false 5 0) meeting

restored_answers-run_stages_example :
    restored_answers (state run).trace.transcript ≡ live_answers (state run).trace.ledger
restored_answers-run_stages_example =
    restored_answers-run_stages as_is is_ascii_digit ascii_digits setup "fix it" members true
      "workflow" "closing" "logs" (finite false 5 0) meeting meeting-IsMeeting

abbrev failed_turn : TurnOutcomeRecord
failed_turn = record {
  turn_id = "turn-3";
  stage_index = int (pos 2);
  agent_id = "bob";
  backend = "mock";
  outcome = failed_kind;
  code = some "provider_transport_failed";
  message = some "The provider transport failed";
  provider_stop_reason = none;
  process_exit_code = none;
  retry_after_seconds = none;
}

run_fails : run ≡ halted (state run) (required_failed failed_turn)
unfolding run_stages agent_collab.Base.Text.decimal is_ascii_digit
    agent_collab.Outcomes.Codes.is_backend agent_collab.Outcomes.Turn.make_outcome
    agent_collab.Outcomes.Fields.parse_kind agent_collab.Outcomes.Codes.kind_of_name
    agent_collab.Outcomes.Fields.canonical_message agent_collab.Outcomes.Fields.check_message
    agent_collab.Outcomes.Fields.safe_stop_reason agent_collab.Outcomes.Fields.safe_retry_after
    agent_collab.Outcomes.Turn.check_code agent_collab.Referee.Arbitration.unexpected_cancel
    agent_collab.Outcomes.Codes.message_of_code agent_collab.Outcomes.Fields.safe_exit_code
run_fails = refl

abbrev class_name : Error → String
class_name e = "RuntimeError"

finish_run-run_stages_example :
    EndsWith is_ascii_digit (state run) failed_turn
    × ((z : ℤ) × (c : String) × (v : World) × (failed_turn.stage_index ≡ int z)
        × (failed_turn.code ≡ some c)
        × (finish_run is_ascii_digit true "11:00" session (end_of class_name "a.jsonl" "a.md" run)
            ≡ ok v)
        × IsFailed "11:00" (failure_of failed_turn z c) v)
finish_run-run_stages_example =
    finish_run-run_stages as_is is_ascii_digit ascii_digits setup "fix it" members true "workflow"
      "closing" "logs" (finite false 5 0) meeting true "11:00" session class_name "a.jsonl" "a.md"
      (state run) failed_turn meeting-IsMeeting run_fails refl
