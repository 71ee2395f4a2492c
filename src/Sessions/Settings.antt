-- ===== src/Sessions/Settings.antt =====
-- The settings of a session that is restored: `_state_from_record` of agent_collab/daemon.py.
use agent_collab.Base.{
  String, ◌≡◌, refl, Bool, true, false, arith, Bool-cases, inl, inr, ◌==◌, eq_refl,
}
use agent_collab.Base.Values.{
  Value, null, bool, int, float, str, obj, arr, Fields, end, field, has_field, put_field,
}
use agent_collab.Sessions.Restore.{legacy_sandbox, note_fields, note_settings}
use agent_collab.Sessions.Restore.{with_warning, warnings_of}

-- Settings that the restore leaves alone.
abbrev pub has_sandbox : Value → Bool
has_sandbox null = false
has_sandbox (obj fs) = has_field fs "sandbox"
has_sandbox _ = true

has_field-put_field : (fs : Fields) (k : String) (v : Value) → has_field (put_field fs k v) k ≡ true
unfolding has_field put_field
has_field-put_field end k v = ground (arith, eq_refl k)
has_field-put_field (field j w fs) k v = elim (Bool-cases (j == k)) [
  | inl e ↦ rw e (rw e refl)
  | inr e ↦ rw e (rw e (has_field-put_field fs k v))
]

has_field-put_other :
    (fs : Fields) (i k : String) (v : Value)
    → has_field fs i ≡ true
    → has_field (put_field fs k v) i ≡ true
unfolding has_field put_field
has_field-put_other end i k v h = cc
has_field-put_other (field j w fs) i k v h = ground (arith, has_field-put_other fs i k v)

noted_fields : (fs : Fields) → has_field (note_fields fs) "sandbox" ≡ true
unfolding note_fields
noted_fields fs =
    let noted = put_field fs "sandbox" legacy_sandbox in
    has_field-put_other noted "sandbox" "warnings" (with_warning (warnings_of noted))
      (has_field-put_field fs "sandbox" legacy_sandbox)

pub note_settings-has_sandbox : (v : Value) → has_sandbox (note_settings v) ≡ true
unfolding note_settings
note_settings-has_sandbox null = noted_fields end
note_settings-has_sandbox (obj fs) = elim (Bool-cases (has_field fs "sandbox")) [
  | inl e ↦ rw e e
  | inr e ↦ rw e (noted_fields fs)
]
note_settings-has_sandbox (bool b) = refl
note_settings-has_sandbox (int z) = refl
note_settings-has_sandbox (float f) = refl
note_settings-has_sandbox (str t) = refl
note_settings-has_sandbox (arr items) = refl

pub note_settings_noted : (v : Value) → has_sandbox v ≡ true → note_settings v ≡ v
unfolding note_settings
note_settings_noted null h = cc
note_settings_noted (obj fs) h = rw h refl
note_settings_noted (bool b) h = refl
note_settings_noted (int z) h = refl
note_settings_noted (float f) h = refl
note_settings_noted (str t) h = refl
note_settings_noted (arr items) h = refl
