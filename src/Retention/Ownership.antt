-- ===== src/Retention/Ownership.antt =====
-- Which transcripts may be deleted.
use Prim.Native.String.{◌++◌ as ◌<>◌}
use agent_collab.Base.{
  String, ◌≡◌, refl, ◌⊎◌, inl, inr, Bool, true, List, [], ◌∷◌, ◌++◌, All, Bool-cases,
}
use agent_collab.Base.Text.{is_truthy}
use agent_collab.Base.Values.{Value, str}
use agent_collab.Retention.Selection.{Stored}
use agent_collab.Retention.Transcripts.{
  is_valid_session_id, TranscriptPlan, classify_path, classify_transcript_paths,
}

All-append_one :
    {A : Type 0} (P : A → Type 0) (l : List A) (x : A) → All P l → P x → All P (l ++ x ∷ [])
All-append_one P [] x h k = (k, tt)
All-append_one P (y ∷ l) x (h, hs) k = (h, All-append_one P l x hs k)

module _ {FilePath : Type 0} (to_path : String → FilePath) (join : FilePath → String → FilePath)
    (path_eq : FilePath → FilePath → Bool) where
  -- A path is the managed transcript of a session with a valid id.
  abbrev pub IsOwned : String → FilePath → FilePath → Type 0
  IsOwned id dir p =
      (is_valid_session_id id ≡ true)
      × ((p ≡ join dir (id <> ".jsonl")) ⊎ (p ≡ join dir (id <> ".md")))

  classify_path-IsOwned :
      (id : String) (dir : FilePath) (v : Value) (suffix : String)
      (plan : TranscriptPlan to_path join path_eq)
      → (is_valid_session_id id ≡ true → IsOwned id dir (join dir (id <> suffix)))
      → All (IsOwned id dir) plan.deletable
      → All (IsOwned id dir) (classify_path to_path join path_eq id dir v suffix plan).deletable
  unfolding classify_path
  classify_path-IsOwned id dir (str s) suffix plan owned h = elim (Bool-cases (is_truthy s)) [
    | inr e ↦ rw e h
    | inl e ↦ rw e (elim (Bool-cases (is_valid_session_id id)) [
      | inr e' ↦ rw e' h
      | inl e' ↦ rw e' (elim (Bool-cases (path_eq (to_path s) (join dir (id <> suffix)))) [
        | inr e2 ↦ rw e2 h
        | inl e2 ↦ rw e2 (All-append_one (IsOwned id dir) plan.deletable _ h (owned e'))
      ])
    ])
  ]
  classify_path-IsOwned id dir _ suffix plan owned h = h

  -- Whatever paths a stored record names, only the two managed transcripts of its session, in the given
  -- directory and under a valid id, may be deleted.
  pub classify_transcript_paths-IsOwned :
      (r : Stored) (dir : FilePath)
      → All
          (IsOwned r.session_id dir)
          (classify_transcript_paths to_path join path_eq r dir).deletable
  unfolding classify_transcript_paths
  classify_transcript_paths-IsOwned r dir =
      classify_path-IsOwned r.session_id dir r.markdown_path ".md" _ (λ v. (v, inr refl))
        (classify_path-IsOwned r.session_id dir r.jsonl_path ".jsonl" _ (λ v. (v, inl refl)) tt)
