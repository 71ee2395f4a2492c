-- ===== src/Sessions/Opened.antt =====
-- A session that is started has a new id, is valid, and stays valid.
use Prim.Native.Char.{Char}
use agent_collab.Base.{
  String, Bool, true, false, not, ◌&&◌, Option, none, some, List, [], if◌then◌else◌, ◌==◌, Result,
  ok, Error, session_request_error, require, >>=-eq-ok, ◌≡◌, refl, subst, arith,
}
use agent_collab.Base.Text.{member}
use agent_collab.Base.Dict.{Dict, get, get-put}
use agent_collab.Sessions.{Managed, SessionState, World, persist}
use agent_collab.Sessions.Recording.{or_empty}
use agent_collab.Sessions.Invariant.{IsValid, IsValid-of_core, core-persist, persist-managed}
use agent_collab.Sessions.Steps.{Reach, Reach-IsValid}
use agent_collab.Sessions.Opening.{
  Prepared, StartSession, id_for, validate_new_session_id, new_managed, create_task, start_session,
}
use agent_collab.Retention.Transcripts.{is_valid_session_id}

-- What the index says of the session `k` after a state is stored.
abbrev pub indexed :
    (disk : Bool) → Option (Dict SessionState) → SessionState → (k : String) → Option SessionState
indexed disk none state k = none
indexed disk (some records) state k =
    if disk && (state.session_id == k) then some state else get records k

-- A session under a new id, without inputs, which the index has if it was written, and which leaves
-- the other entries alone.
abbrev pub IsOpened :
    (disk : Bool) (known : List String) (index : Option (Dict SessionState)) (k : String)
    → World
    → Type 0
IsOpened disk known index k w =
    (is_valid_session_id w.state.session_id ≡ true)
    × (member w.state.session_id known ≡ false)
    × (w.queue ≡ [])
    × (w.unfinished ≡ 0)
    × (get (or_empty w.index) k ≡ indexed disk index w.state k)

persist-indexed :
    (disk : Bool) (m : Managed) (index : Option (Dict SessionState)) (k : String)
    → get (or_empty (persist disk record { managed = m; index = index }).index) k
      ≡ indexed disk index m.state k
unfolding persist get
persist-indexed disk m none k = refl
persist-indexed true m (some records) k = get-put records m.state.session_id k m.state
persist-indexed false m (some records) k = refl

require-true : (b : Bool) (e : Error) → require b e ≡ ok tt → b ≡ true
require-true true e h = refl
require-true false e h = cc

validate_new_session_id-ok :
    (known : List String) (id : String)
    → validate_new_session_id known id ≡ ok tt
    → (is_valid_session_id id ≡ true) × (member id known ≡ false)
unfolding validate_new_session_id
validate_new_session_id-ok known id h =
    let (t, valid, fresh) =
      >>=-eq-ok (require (is_valid_session_id id) session_request_error) _ h in
    (
      require-true _ session_request_error valid,
      ground (arith, require-true (not (member id known)) session_request_error fresh),
    )

module _ (join : String → String → String) (disk : Bool) (now new_id : String) (known : List String)
    (index : Option (Dict SessionState)) (preparation : Result Prepared)
    (request : StartSession) where
  unsaved : Prepared → World
  unsaved prepared = record {
    managed = new_managed join now (id_for new_id request.session_id) prepared request;
    index = index;
  }

  opened : Prepared → World
  unfolding unsaved
  opened prepared = create_task join (persist disk (unsaved prepared))

  opened-IsValid : (prepared : Prepared) → IsValid (opened prepared)
  unfolding opened unsaved new_managed
  opened-IsValid prepared =
      IsValid-of_core {v = opened prepared} {w = unsaved prepared}
        (core-persist disk (unsaved prepared)) record { known = refl; ended = refl; unique = tt }

  opened-IsOpened :
      (prepared : Prepared) (k : String)
      → validate_new_session_id known (id_for new_id request.session_id) ≡ ok tt
      → IsOpened disk known index k (opened prepared)
  unfolding opened unsaved new_managed
  opened-IsOpened prepared k h =
      let (valid, fresh) = validate_new_session_id-ok known (id_for new_id request.session_id) h in
      let saved =
        persist-indexed disk
          (new_managed join now (id_for new_id request.session_id) prepared request) index k in
      rw (persist-managed disk (unsaved prepared)) (valid, fresh, refl, refl, saved)

  start_session-opened :
      (w : World)
      → start_session join disk now new_id known index preparation request ≡ ok w
      → (prepared : Prepared) × (validate_new_session_id known (id_for new_id request.session_id)
          ≡ ok tt)
        × (opened prepared ≡ w)
  unfolding start_session opened unsaved
  start_session-opened w h =
      let (prepared, e, more) = >>=-eq-ok preparation _ h in
      let (t, valid, done) =
        >>=-eq-ok (validate_new_session_id known (id_for new_id request.session_id)) _ more in
      (prepared, valid, cc)

  -- If a session is started, then its id is well formed and none that the manager had, it has no inputs,
  -- and its index has the new state under this id, unless the write failed or there is no index, and is
  -- otherwise as before. Whatever steps the session then goes through, it stays valid.
  pub start_session-Reach :
      (is_digit : Char → Bool) {w v : World} (k : String)
      → start_session join disk now new_id known index preparation request ≡ ok w
      → Reach is_digit w v
      → IsOpened disk known index k w × IsValid v
  start_session-Reach is_digit {w} {v} k h steps =
      let (prepared, valid, e) = start_session-opened w h in
      (
        subst (IsOpened disk known index k) e (opened-IsOpened prepared k valid),
        Reach-IsValid is_digit steps (subst IsValid e (opened-IsValid prepared)),
      )
