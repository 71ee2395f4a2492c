-- ===== src/Referee/Commits.antt =====
-- The end of a member's turn in a parallel stage: its record is committed and kept.
use Prim.Native.Char.{Char, code}
use mathlib.Core.List.{append_assoc}
use agent_collab.Base.{
  ℕ, String, ◌≡◌, refl, sym, ap, ap₂, ◌∙◌, Bool, true, false, ◌&&◌, ◌||◌, none, some, [], ◌∷◌, ◌++◌,
  any, any-append, arith, leb, ◌==◌, ok, Bool-cases, inl, inr,
}
use agent_collab.Base.Dict.{get, put, get-put}
use agent_collab.Outcomes.Evidence.{is_completed}
use agent_collab.Outcomes.Records.{TurnOutcomeRecord}
use agent_collab.Sessions.Answers.{is_answer}
use agent_collab.Sessions.Turns.{boundary, commit_outcome}
use agent_collab.Sessions.Recovery.{boundary_silent}
use agent_collab.Referee.Arbitration.{Wake, unexpected_cancel}
use agent_collab.Referee.Progress.{Progress, Setup}
use agent_collab.Referee.Supervision.{Turn, boundary_text, commit_turn, after_commit, close_turn}
use agent_collab.Referee.Parallel.{recorded, Stage, progress_of, phase_of}
use agent_collab.Referee.Members.{
  id_of, phase_completed, has_fallen, completed_by, has_id, IsStaged, same_text,
}

drop_false : (b : Bool) → (false || (b || false)) ≡ b
drop_false true = refl
drop_false false = refl

keep_first : (b : Bool) → (b || (false || false)) ≡ b
keep_first true = refl
keep_first false = refl

module _ (is_digit : Char → Bool)
    (ascii : (c : Char) → (leb 48 (code c) && leb (code c) 57) ≡ true → is_digit c ≡ true)
    (setup : Setup) (stage_index : ℕ) (before : Progress) where
  abbrev pub ending : Wake → (stop_after : Bool) → (now : String) → Turn
  ending wake stop_after now = record {
    before = [];
    cut_before = false;
    said = [];
    wake = wake;
    cut_cleanup = false;
    stop_after = stop_after;
    conversation = false;
    now = now;
  }

  -- Without a stop, a turn that ends is committed and its record kept, also when it raises.
  after_commit-recorded :
      (wake : Wake) (now : String) (q : Progress) (r : TurnOutcomeRecord)
      → (progress_of (after_commit (ending wake false now) q r) ≡ q)
        × (phase_of (after_commit (ending wake false now) q r) ≡ recorded r)
  unfolding after_commit
  after_commit-recorded wake now q r = elim (Bool-cases (unexpected_cancel wake)) [
    | inl e ↦ rw e (refl, refl)
    | inr e ↦ rw e (refl, refl)
  ]

  pub close_turn-recorded :
      (wake : Wake) (stop : Bool) (now : String) (p : Progress) (n : ℕ) (r : TurnOutcomeRecord)
      → stop ≡ false
      → any (has_id r.turn_id) p.turns ≡ false
      → (progress_of (close_turn (ending wake stop now) p n (ok r)) ≡ commit_turn p now r n)
        × (phase_of (close_turn (ending wake stop now) p n (ok r)) ≡ recorded r)
  unfolding close_turn
  close_turn-recorded wake true now p n r e new = cc
  close_turn-recorded wake false now p n r e new =
      rw new (after_commit-recorded wake now (commit_turn p now r n) r)

  pub committed-IsStaged :
      (s : Stage) (agent : String) (n : ℕ) (now : String) (r : TurnOutcomeRecord)
      → id_of (get s.phases agent) ≡ some r.turn_id
      → phase_completed (get s.phases agent) ≡ false
      → r.agent_id ≡ agent
      → IsStaged before s
      → IsStaged before (record s {
        progress = commit_turn s.progress now r n;
        phases = put s.phases agent (recorded r);
      })
  unfolding commit_turn commit_outcome
  committed-IsStaged s agent n now r active before_end own h =
      let last = boundary now (boundary_text r) r in
      record {
        said = (
          h.said.0 ++ last ∷ [],
          ap (λ l. l ++ last ∷ []) h.said.1
              ∙ append_assoc before.trace.transcript h.said.0 (last ∷ []),
          λ a. ground (
            arith,
            h.said.2 a,
            any-append (is_answer a) h.said.0 (last ∷ []),
            boundary_silent a now (boundary_text r) r,
          ),
        );
        turns = (
          h.turns.0 ++ r ∷ [],
          ap (λ l. l ++ r ∷ []) h.turns.1 ∙ append_assoc before.turns h.turns.0 (r ∷ []),
          done,
        );
        fresh = unused;
        apart = λ a b i e f. h.apart a b i (other a i e).0 (other b i f).0;
        numbered = λ a i e. h.numbered a i (other a i e).0;
        standing = λ a. elim (Bool-cases (agent == a)) [
          | inl e ↦ ap has_fallen (at_own a e)
          | inr e ↦ ap has_fallen (at_other a e) ∙ h.standing a
        ];
      }
    where
      at_own :
          (a : String)
          → (agent == a) ≡ true
          → get (put s.phases agent (recorded r)) a ≡ some (recorded r)
      at_own a k = get-put s.phases agent a (recorded r) ∙ rw k refl

      at_other :
          (a : String)
          → (agent == a) ≡ false
          → get (put s.phases agent (recorded r)) a ≡ get s.phases a
      at_other a k = get-put s.phases agent a (recorded r) ∙ rw k refl

      other :
          (a i : String)
          → id_of (get (put s.phases agent (recorded r)) a) ≡ some i
          → (id_of (get s.phases a) ≡ some i) × ((agent == a) ≡ false)
      other a i e = elim (Bool-cases (agent == a)) [
        | inl k ↦ absurd (nothing (sym (ap id_of (at_own a k)) ∙ e))
        | inr k ↦ (sym (ap id_of (at_other a k)) ∙ e, k)
      ]
        where
          nothing : none ≡ some i → ⊥
          nothing e = cc

      unused :
          (a i : String)
          → id_of (get (put s.phases agent (recorded r)) a) ≡ some i
          → any (has_id i) (s.progress.turns ++ r ∷ []) ≡ false
      unused a i e =
          any-append (has_id i) s.progress.turns (r ∷ [])
          ∙ ap₂ (λ x y. x || (y || false)) (h.fresh a i (other a i e).0)
              (new_id (other a i e).0 (other a i e).1)
        where
          clash : (agent == a) ≡ true → (agent == a) ≡ false → ⊥
          clash x y = cc

          new_id : id_of (get s.phases a) ≡ some i → (agent == a) ≡ false → (r.turn_id == i) ≡ false
          new_id live differs = elim (Bool-cases (r.turn_id == i)) [
            | inr k ↦ k
            | inl k ↦ absurd (
                clash (h.apart agent a i (active ∙ ap some (same_text r.turn_id i k)) live) differs)
          ]

      done :
          (a : String)
          → any (completed_by a) (h.turns.0 ++ r ∷ [])
            ≡ phase_completed (get (put s.phases agent (recorded r)) a)
      done a = any-append (completed_by a) h.turns.0 (r ∷ []) ∙ elim (Bool-cases (agent == a)) [
        | inl e ↦
            ap₂ (λ x y. x || (y || false))
              (h.turns.2 a
                ∙ ap (λ x. phase_completed (get s.phases x)) (sym (same_text agent a e))
                ∙ before_end)
              (own_done e)
            ∙ drop_false (is_completed r.outcome)
            ∙ sym (ap phase_completed (at_own a e))
        | inr e ↦
            ap₂ (λ x y. x || (y || false)) (h.turns.2 a) (own_not e)
            ∙ keep_first (phase_completed (get s.phases a))
            ∙ sym (ap phase_completed (at_other a e))
      ]
        where
          owner : (r.agent_id == a) ≡ (agent == a)
          owner = ap (λ x. x == a) own

          own_done : (agent == a) ≡ true → completed_by a r ≡ is_completed r.outcome
          own_done e = rw (owner ∙ e) refl

          own_not : (agent == a) ≡ false → completed_by a r ≡ false
          own_not e = rw (owner ∙ e) refl
