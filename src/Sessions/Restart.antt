-- ===== src/Sessions/Restart.antt =====
-- What a restart brings back.
use Prim.Native.Char.{Char}
use agent_collab.Base.{
  String, ◌≡◌, refl, ap, subst, sym, ◌∙◌, Bool, true, false, ◌&&◌, ◌||◌, Option, none, some, List,
  [], ◌∷◌, arith, All, ok, >>=-eq-ok, Bool-cases, inl, inr, ◌==◌, if◌then◌else◌,
}
use agent_collab.Base.Text.{is_truthy}
use agent_collab.Base.Dict.{Dict, get, put}
use agent_collab.Base.Values.{Value, null, obj, arr, Items, nil, cons}
use agent_collab.Outcomes.Records.{
  TurnOutcomeRecord, SessionFailure, record_to_dict, failure_to_dict,
}
use agent_collab.Outcomes.Reload.{IsRecord, IsRecord-reload}
use agent_collab.Outcomes.Failures.{IsFailure, IsFailure-reload}
use agent_collab.Sessions.{
  Status, interrupted, status_name, is_terminal, is_live, SessionState, Managed, World,
}
use agent_collab.Sessions.Lifecycle.{transition_state}
use agent_collab.Sessions.Invariant.{persist-managed}
use agent_collab.Sessions.Settings.{has_sandbox, note_settings-has_sandbox, note_settings_noted}
use agent_collab.Sessions.Restore.{
  StoredState, note_settings, caught, restore_failure, restore_items, restore_outcomes, read_state,
  state_from_record, restored_session, interrupt, Restored, admit, add_restored, restore_from_index,
}

abbrev pub failure_value : Option SessionFailure → Value
failure_value none = null
failure_value (some f) = obj (failure_to_dict f)

abbrev pub outcome_items : List TurnOutcomeRecord → Items
outcome_items [] = nil
outcome_items (r ∷ rs) = cons (obj (record_to_dict r)) (outcome_items rs)

abbrev pub outcomes_value : Option (List TurnOutcomeRecord) → Value
outcomes_value none = null
outcomes_value (some l) = arr (outcome_items l)

-- What the index keeps of a state.
abbrev pub stored_state : SessionState → StoredState
stored_state s = record {
  session_id = s.session_id;
  status = s.status;
  jsonl_path = s.jsonl_path;
  markdown_path = s.markdown_path;
  updated_at = s.updated_at;
  interactive = s.interactive;
  ended_at = s.ended_at;
  error = s.error;
  failure = failure_value s.failure;
  turn_outcomes = outcomes_value s.turn_outcomes;
  agent_sessions = s.agent_sessions;
  settings = s.settings;
  agents = s.agents;
}

-- What is to be read back of a session.
abbrev pub read_back : SessionState → SessionState
read_back s = if has_sandbox s.settings then s else record s { settings = note_settings s.settings }

module _ (is_digit : Char → Bool) where
  abbrev pub IsMadeFailure : Option SessionFailure → Type 0
  IsMadeFailure none = Unit
  IsMadeFailure (some f) = IsFailure is_digit f

  abbrev pub AreMadeOutcomes : Option (List TurnOutcomeRecord) → Type 0
  AreMadeOutcomes none = Unit
  AreMadeOutcomes (some l) = All (IsRecord is_digit) l

  failure_back :
      (f : Option SessionFailure)
      → IsMadeFailure f
      → restore_failure is_digit (failure_value f) ≡ ok f
  unfolding restore_failure caught
  failure_back none h = refl
  failure_back (some f) h = rw (IsFailure-reload is_digit f h)

  items_back :
      (l : List TurnOutcomeRecord)
      → All (IsRecord is_digit) l
      → restore_items is_digit (outcome_items l) ≡ ok l
  unfolding restore_items caught
  items_back [] h = refl
  items_back (r ∷ l) (h, hs) = rw (IsRecord-reload is_digit r h, items_back l hs)

  outcomes_back :
      (o : Option (List TurnOutcomeRecord))
      → AreMadeOutcomes o
      → restore_outcomes is_digit (outcomes_value o) ≡ ok o
  unfolding restore_outcomes
  outcomes_back none h = refl
  outcomes_back (some l) h = rw (items_back l h)

  made_back :
      (s : SessionState)
      → IsMadeFailure s.failure
      → AreMadeOutcomes s.turn_outcomes
      → is_truthy s.session_id ≡ true
      → is_truthy (status_name s.status) ≡ true
      → state_from_record is_digit (stored_state s)
        ≡ ok (some (record s { settings = note_settings s.settings }))
  unfolding state_from_record read_state
  made_back s f o i t = rw (i, t, failure_back s.failure f, outcomes_back s.turn_outcomes o) refl

  -- A session whose failure and outcomes were made by their constructors, and which has an id and a
  -- status, is read back from its index record as it was, if its settings have a sandbox or are neither
  -- an object nor missing. Else only its settings differ: they then have a sandbox, and a record of the
  -- session that was read back is read back as it is.
  pub state_from_record-stored_state :
      (s : SessionState)
      → IsMadeFailure s.failure
      → AreMadeOutcomes s.turn_outcomes
      → is_truthy s.session_id ≡ true
      → is_truthy (status_name s.status) ≡ true
      → (state_from_record is_digit (stored_state s) ≡ ok (some (read_back s)))
        × (has_sandbox (read_back s).settings ≡ true)
        × (state_from_record is_digit (stored_state (read_back s)) ≡ ok (some (read_back s)))
  state_from_record-stored_state s f o i t = elim (Bool-cases (has_sandbox s.settings)) [
    | inl e ↦
        let same : state_from_record is_digit (stored_state s) ≡ ok (some s) =
          made_back s f o i t
          ∙ ap (λ v. ok (some (record s { settings = v }))) (note_settings_noted s.settings e) in
        rw e (same, e, same)
    | inr e ↦
        let noted = record s { settings = note_settings s.settings } in
        let again = note_settings-has_sandbox s.settings in
        rw e (
          made_back s f o i t,
          again,
          made_back noted f o i t
              ∙ ap (λ v. ok (some (record s { settings = v })))
                  (note_settings_noted (note_settings s.settings) again),
        )
  ]

All-put :
    {V : Type 0} (P : V → Type 0) (d : Dict V) (k : String) (v : V)
    → All (λ e. P e.1) d
    → P v
    → All (λ e. P e.1) (put d k v)
unfolding put
All-put P [] k v h p = (p, tt)
All-put P ((j, w) ∷ d) k v (h, hs) p = elim (Bool-cases (j == k)) [
  | inl e ↦ rw e (p, hs)
  | inr e ↦ rw e (h, All-put P d k v hs p)
]

-- The status of a managed session is terminal.
abbrev pub IsOver : Managed → Type 0
IsOver m = is_terminal m.state.status ≡ true

interrupted_status :
    (s : SessionState)
    → is_terminal s.status ≡ false
    → is_live s.status ≡ true
    → is_terminal (transition_state s interrupted).0.status ≡ true
unfolding transition_state
interrupted_status s t l = rw (t, l) refl

interrupt-IsOver :
    (disk : Bool) (now : String) (w : World)
    → (is_terminal w.state.status || is_live w.state.status) ≡ true
    → IsOver (interrupt disk now w).managed
unfolding interrupt
interrupt-IsOver disk now w h = elim (Bool-cases (is_terminal w.state.status)) [
  | inl e ↦ rw e e
  | inr e ↦ rw (e, persist-managed) (interrupted_status w.state e (ground arith))
]

-- A status that the daemon knows.
abbrev pub IsKnown : Status → Type 0
IsKnown s = (is_terminal s || is_live s) ≡ true

add_restored-IsOver :
    (disk : Bool) (now : String) (all : Restored) (s : Option SessionState)
    → All (λ e. IsOver e.1) all.sessions
    → ((x : SessionState) → s ≡ some x → IsKnown x.status)
    → All (λ e. IsOver e.1) (add_restored disk now all s).sessions
unfolding add_restored
add_restored-IsOver disk now all none h k = h
add_restored-IsOver disk now all (some s) h k = admitted (get all.sessions s.session_id)
  where
    admitted :
        (known : Option Managed) → All (λ e. IsOver e.1) (admit disk now all s known).sessions
    admitted (some m) = h
    admitted none = All-put IsOver all.sessions s.session_id _ h (
        interrupt-IsOver disk now (record { managed = restored_session s; index = all.index })
          (k s refl))

module _ (is_digit : Char → Bool) where
  read_state_status :
      (r : StoredState) (s : Option SessionState)
      → read_state is_digit r ≡ ok s
      → (x : SessionState) → s ≡ some x
      → x.status ≡ r.status
  unfolding read_state
  read_state_status r s h x e =
      let (f, ef, h1) = >>=-eq-ok (restore_failure is_digit r.failure) _ h in
      let (o, eo, h2) = >>=-eq-ok (restore_outcomes is_digit r.turn_outcomes) _ h1 in
      status_of _ (h2 ∙ ap ok e)
    where
      status_of : (y : SessionState) → ok (some y) ≡ ok (some x) → x.status ≡ y.status
      status_of y k = let same : x ≡ y = cc in ap (λ (z : SessionState). z.status) same

  read_status :
      (r : StoredState) (s : Option SessionState)
      → state_from_record is_digit r ≡ ok s
      → (x : SessionState) → s ≡ some x
      → x.status ≡ r.status
  unfolding state_from_record
  read_status r s h x e =
      elim (Bool-cases (is_truthy r.session_id && is_truthy (status_name r.status))) [
        | inl y ↦ read_state_status r s (rw y at h) x e
        | inr n ↦ absurd (nothing (rw n at h))
      ]
    where
      nothing : ok none ≡ ok s → ⊥
      nothing k = cc

  -- After a restart no session claims to be running: if every record of the index has a status that the
  -- daemon knows, every session that is restored to an empty manager is terminal.
  pub restore_from_index-IsOver :
      (disk : Bool) (now : String) (records : List StoredState) (index : Option (Dict SessionState))
      (after : Restored)
      → All (λ (r : StoredState). IsKnown r.status) records
      → restore_from_index is_digit disk now (record { sessions = []; index = index }) records
        ≡ ok after
      → All (λ e. IsOver e.1) after.sessions
  unfolding restore_from_index
  restore_from_index-IsOver disk now records index after known h =
      go (record { sessions = []; index = index }) records known tt h
    where
      go :
          (all : Restored) (records : List StoredState)
          → All (λ (r : StoredState). IsKnown r.status) records
          → All (λ e. IsOver e.1) all.sessions
          → restore_from_index is_digit disk now all records ≡ ok after
          → All (λ e. IsOver e.1) after.sessions
      go all [] k o h =
          let same : all ≡ after = cc in
          subst (λ (a : Restored). All (λ e. IsOver e.1) a.sessions) same o
      go all (r ∷ rs) (k, ks) o h =
          let (s, e, h') = >>=-eq-ok (state_from_record is_digit r) _ h in
          go (add_restored disk now all s) rs ks
            (add_restored-IsOver disk now all s o
              (λ x m. subst IsKnown (sym (read_status r s e x m)) k))
            h'
