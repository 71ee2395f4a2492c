-- ===== src/Referee/Members.antt =====
-- What holds while the members of a parallel stage run: who spoke is noted, who completed is in the
-- turns, and no turn's id is used twice.
use Prim.Native.Char.{Char, code}
use mathlib.Core.List.{append_assoc}
use agent_collab.Base.{
  ℕ, String, ◌≡◌, refl, sym, ap, ◌∙◌, Bool, true, false, ◌&&◌, Option, none, some, List, [], ◌∷◌,
  ◌++◌, any, any-append, length, arith, leb, if◌then◌else◌, ◌==◌, eq_iff, Bool-cases, inl, inr,
}
use agent_collab.Base.Text.{member}
use agent_collab.Base.Dict.{Dict, get, put, get-put}
use agent_collab.Events.{Event}
use agent_collab.Outcomes.Evidence.{is_completed}
use agent_collab.Outcomes.Records.{TurnOutcomeRecord}
use agent_collab.Sessions.Answers.{is_answer, is_message}
use agent_collab.Sessions.Turns.{begin_turn, emit}
use agent_collab.Referee.Progress.{Progress, Setup, turn_id_of}
use agent_collab.Referee.Supervision.{attributed}
use agent_collab.Referee.Records.{IsParty, IsSound}
use agent_collab.Referee.Parallel.{
  Phase, waiting, running, recorded, fell, Stage, MemberStep, starts, says, ends, member_step,
}

-- The turn id of a member that is not done.
abbrev pub id_of : Option Phase → Option String
id_of (some (waiting id)) = some id
id_of (some (running id n)) = some id
id_of _ = none

abbrev pub phase_completed : Option Phase → Bool
phase_completed (some (recorded r)) = is_completed r.outcome
phase_completed _ = false

abbrev pub has_fallen : Option Phase → Bool
has_fallen (some (fell h)) = true
has_fallen _ = false

-- A completed record of an agent.
abbrev pub completed_by : String → TurnOutcomeRecord → Bool
completed_by a r = (r.agent_id == a) && is_completed r.outcome

abbrev pub has_id : String → TurnOutcomeRecord → Bool
has_id id r = r.turn_id == id

-- A stage that began in `before`.
pub record IsStaged (before : Progress) (s : Stage) : Type 0 where
  pub said :
      (new : List Event) × (s.progress.trace.transcript ≡ before.trace.transcript ++ new)
      × ((a : String) → member a s.produced ≡ any (is_answer a) new)
  pub turns :
      (new : List TurnOutcomeRecord) × (s.progress.turns ≡ before.turns ++ new)
      × ((a : String) → any (completed_by a) new ≡ phase_completed (get s.phases a))
  pub fresh :
      (a id : String) → id_of (get s.phases a) ≡ some id → any (has_id id) s.progress.turns ≡ false
  pub apart :
      (a b id : String)
      → id_of (get s.phases a) ≡ some id
      → id_of (get s.phases b) ≡ some id
      → (a == b) ≡ true
  pub numbered : (a id : String) → id_of (get s.phases a) ≡ some id → (n : ℕ) × (id ≡ turn_id_of n)
  pub standing : (a : String) → has_fallen (get s.phases a) ≡ false

-- A member that ends is a valid agent with a sound runner, and no stop is registered.
abbrev pub IsCalm : Setup → MemberStep → Type 0
IsCalm setup (ends agent wake stop_after now) =
    IsParty setup agent × IsSound wake × (stop_after ≡ false)
IsCalm setup step = Unit

pub same_text : (a b : String) → (a == b) ≡ true → a ≡ b
same_text a b e = (eq_iff a b).0 e

-- What a new phase of one agent keeps is kept for all.
put_keeps :
    {X : Type 0} (f : Option Phase → X) (d : Dict Phase) (a : String) (v : Phase) (b : String)
    → f (some v) ≡ f (get d a)
    → f (get (put d a v) b) ≡ f (get d b)
put_keeps f d a v b h = elim (Bool-cases (a == b)) [
  | inl e ↦ ap f (get-put d a b v ∙ rw e refl) ∙ h ∙ ap (λ x. f (get d x)) (same_text a b e)
  | inr e ↦ ap f (get-put d a b v ∙ rw e refl)
]

module _ (is_digit : Char → Bool)
    (ascii : (c : Char) → (leb 48 (code c) && leb (code c) 57) ≡ true → is_digit c ≡ true)
    (setup : Setup) (stage_index : ℕ) (before : Progress) where
  pub starts-IsStaged :
      (s : Stage) (agent id : String)
      → get s.phases agent ≡ some (waiting id)
      → IsStaged before s
      → IsStaged before
          (member_step is_digit setup stage_index s (starts agent) (some (waiting id)))
  unfolding member_step begin_turn
  starts-IsStaged s agent id at h =
      let moved = running id (length s.progress.trace.transcript) in
      let ids : (b : String) → id_of (get (put s.phases agent moved) b) ≡ id_of (get s.phases b) =
        λ b. put_keeps id_of s.phases agent moved b (sym (ap id_of at)) in
      record {
        said = h.said;
        turns = (
          h.turns.0,
          h.turns.1,
          λ a.
              h.turns.2 a
              ∙ sym
                  (put_keeps phase_completed s.phases agent moved a (sym (ap phase_completed at))),
        );
        fresh = λ a i e. h.fresh a i (sym (ids a) ∙ e);
        apart = λ a b i e f. h.apart a b i (sym (ids a) ∙ e) (sym (ids b) ∙ f);
        numbered = λ a i e. h.numbered a i (sym (ids a) ∙ e);
        standing = λ a.
            put_keeps has_fallen s.phases agent moved a (sym (ap has_fallen at)) ∙ h.standing a;
      }

  attributed_answer :
      (a agent : String) (e : Event)
      → is_answer a (attributed agent e) ≡ ((agent == a) && is_message e)
  unfolding is_answer is_message
  attributed_answer a agent e = refl

  pub says-IsStaged :
      (s : Stage) (agent id : String) (n : ℕ) (e : Event)
      → IsStaged before s
      → IsStaged before
          (member_step is_digit setup stage_index s (says agent e) (some (running id n)))
  unfolding member_step emit
  says-IsStaged s agent id n e h = record {
    said = (
      h.said.0 ++ attributed agent e ∷ [],
      ap (λ l. l ++ attributed agent e ∷ []) h.said.1
          ∙ append_assoc before.trace.transcript h.said.0 _,
      noted,
    );
    turns = h.turns;
    fresh = h.fresh;
    apart = h.apart;
    numbered = h.numbered;
    standing = h.standing;
  }
    where
      noted :
          (a : String)
          → member a (if is_message e then agent ∷ s.produced else s.produced)
            ≡ any (is_answer a) (h.said.0 ++ attributed agent e ∷ [])
      noted a = ground (
        arith,
        h.said.2 a,
        any-append (is_answer a) h.said.0 (attributed agent e ∷ []),
        attributed_answer a agent e,
      )
