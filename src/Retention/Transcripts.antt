-- ===== src/Retention/Transcripts.antt =====
-- `is_valid_session_id` and `classify_transcript_paths` of agent_collab/retention.py.
use Prim.Native.String.{◌++◌ as ◌<>◌}
use agent_collab.Base.{String, Bool, not, ◌&&◌, List, [], ◌∷◌, ◌++◌, if◌then◌else◌, ◌==◌}
use agent_collab.Base.Text.{is_truthy, contains_char}
use agent_collab.Base.Values.{Value, str}
use agent_collab.Retention.Selection.{Stored}

-- is_valid_session_id: "/" is 47, "\" is 92
unfoldable pub is_valid_session_id : String → Bool
unfolding contains_char
is_valid_session_id s =
    is_truthy s
    && not (contains_char 47 s)
    && not (contains_char 92 s)
    && not (s == ".")
    && not (s == "..")

pub data Reason : Type 0 where
  invalid_session_id outside_managed_directory : Reason

-- `Path`, its constructor, `/` and `==`
module _ {FilePath : Type 0} (to_path : String → FilePath) (join : FilePath → String → FilePath)
    (path_eq : FilePath → FilePath → Bool) where
  -- TranscriptPlan
  pub record TranscriptPlan : Type 0 where
    pub deletable : List FilePath
    pub preserved : List (String × Reason)

  -- The body of the loop, for one key.
  unfoldable pub classify_path :
      (session_id : String) → FilePath → Value → (suffix : String) → TranscriptPlan → TranscriptPlan
  unfolding is_valid_session_id
  classify_path session_id dir (str recorded) suffix plan =
      let expected = join dir (session_id <> suffix) in
      if not (is_truthy recorded)
      then plan
      else if not (is_valid_session_id session_id)
      then record plan { preserved = plan.preserved ++ (recorded, invalid_session_id) ∷ [] }
      else if path_eq (to_path recorded) expected
      then record plan { deletable = plan.deletable ++ expected ∷ [] }
      else record plan { preserved = plan.preserved ++ (recorded, outside_managed_directory) ∷ [] }
  classify_path session_id dir v suffix plan = plan

  -- classify_transcript_paths
  unfoldable pub classify_transcript_paths : Stored → FilePath → TranscriptPlan
  unfolding classify_path
  classify_transcript_paths r dir = classify_path r.session_id dir r.markdown_path ".md" (
      classify_path r.session_id dir r.jsonl_path ".jsonl"
        (record { deletable = []; preserved = [] }))
