-- ===== src/Sessions/OpeningExamples.antt =====
-- Starting sessions, on concrete inputs.
use Prim.Native.String.{◌++◌ as ◌<>◌}
use agent_collab.Base.{
  String, true, false, some, [], ◌∷◌, ok, err, ◌≡◌, refl, session_request_error,
}
use agent_collab.Base.Text.{is_ascii_digit}
use agent_collab.Base.Values.{str, obj, end, field}
use agent_collab.Base.Dict.{put}
use agent_collab.Sessions.{World, done}
use agent_collab.Sessions.Invariant.{IsValid}
use agent_collab.Sessions.Lifecycle.{plain, set_status}
use agent_collab.Sessions.Steps.{here, next, change_status}
use agent_collab.Sessions.Opening.{
  Prepared, StartSession, create_task, new_state, new_managed, start_session,
}
use agent_collab.Sessions.Opened.{IsOpened, start_session-Reach}

abbrev joined : String → String → String
joined a b = a <> ("/" <> b)

abbrev prepared : Prepared
prepared = record {
  log_dir = "logs";
  agent_backends = ("a", "cli") ∷ [];
  agent_types = ("a", "claude") ∷ [];
  settings = obj (field "sandbox" (str "none") end);
  agents = [];
}

abbrev request : StartSession
request = record { session_id = some "second"; interactive = true }

-- The session that starts under the id "second" while there is one under "first".
abbrev started : World
started = create_task joined record {
  managed = new_managed joined "12:00" "second" prepared request;
  index = some (put [] "second" (new_state joined "12:00" "second" prepared request));
}

abbrev over : World
over = (set_status false "12:05" started done plain).0

start_session-Reach_example : IsOpened true ("first" ∷ []) (some []) "second" started × IsValid over
unfolding start_session agent_collab.Retention.Transcripts.is_valid_session_id
start_session-Reach_example =
    start_session-Reach joined true "12:00" "x" ("first" ∷ []) (some []) (ok prepared) request
      is_ascii_digit {w = started} {v = over} "second" refl
      (next here (change_status false "12:05" started done plain))

test_taken_id :
    start_session joined true "12:00" "x" ("second" ∷ []) (some []) (ok prepared) request
    ≡ err session_request_error
unfolding start_session agent_collab.Retention.Transcripts.is_valid_session_id
test_taken_id = refl
