-- ===== src/Sessions/Recovery.antt =====
-- After a restart the answers are those of the live session: `_derive_restored_answers` against the
-- ledger that the referee filled.
use agent_collab.Base.{
  ℕ, String, ◌≡◌, refl, sym, ap, ◌∙◌, Bool, true, false, Option, none, some, [], ◌∷◌, ◌++◌, map,
  length, arith, if◌then◌else◌, ◌==◌, Bool-cases, inl, inr,
}
use agent_collab.Base.Text.{is_truthy}
use agent_collab.Base.Dict.{Dict, get, remove, get-remove, get-remove_same}
use agent_collab.Base.Values.{str}
use agent_collab.Outcomes.Codes.{
  Kind, completed, cancelled, interrupted, timed_out, refused, failed, kind_name,
}
use agent_collab.Outcomes.Reload.{field_laws}
use agent_collab.Outcomes.Evidence.{is_completed}
use agent_collab.Outcomes.Records.{TurnOutcomeRecord, record_to_dict}
use agent_collab.Sessions.{Answer}
use agent_collab.Sessions.Answers.{
  is_message, is_completed_text, is_answer, find_turn_answer, shown_answer, live_answers, Derived,
  raw_outcome, chosen, close_for, commit_answer, close_turn, step_for, derive_step, derive_from,
  restored_answers,
}
use agent_collab.Sessions.Turns.{
  boundary, Trace, keep_answer, commit_outcome, begins, emits, commits, TurnReach, here, next,
  no_turns,
}
use agent_collab.Sessions.Spans.{said, find_turn_answer-said}
use agent_collab.Sessions.Agreement.{
  derived, derived-append, shown, span_slot, shown_ledger, Agrees, put-shown_ledger, chosen-slot_of,
  quiet, begins-Agrees, emits-Agrees, starts_later,
}

completed_text : (k : Kind) → is_completed_text (str (kind_name k)) ≡ is_completed k
unfolding kind_name
completed_text completed = refl
completed_text cancelled = refl
completed_text interrupted = refl
completed_text timed_out = refl
completed_text refused = refl
completed_text failed = refl

-- At a boundary the reconstruction closes the turn of the record's agent.
step_boundary :
    (d : Derived) (i : ℕ) (now text : String) (r : TurnOutcomeRecord)
    → is_truthy r.agent_id ≡ true
    → derive_step d i (boundary now text r) ≡ close_for d (is_completed r.outcome) (some r.agent_id)
unfolding derive_step step_for close_turn raw_outcome boundary record_to_dict
step_boundary d i now text r h = simp (field_laws, h, completed_text)

pub boundary_silent :
    (a now text : String) (r : TurnOutcomeRecord) → is_answer a (boundary now text r) ≡ false
unfolding is_answer is_message boundary
boundary_silent a now text r = ground arith

keep-shown :
    (l : Dict Answer) (a : String) (x : Option Answer)
    → commit_answer (shown_ledger l) a (shown a x) ≡ shown_ledger (keep_answer l a x)
keep-shown l a none = refl
keep-shown l a (some x) = put-shown_ledger l a x

close_for-ledger :
    (d : Derived) (c : Bool) (a : String)
    → (close_for d c (some a)).ledger
      ≡ (if c then commit_answer d.ledger a (chosen (get d.pending a)) else d.ledger)
unfolding close_for
close_for-ledger d c a = refl

close_for-pending :
    (d : Derived) (c : Bool) (a : String) → (close_for d c (some a)).pending ≡ remove d.pending a
unfolding close_for
close_for-pending d c a = refl

closed_ledger :
    (c : Bool) (l : Dict Answer) (a : String) (x : Option Answer)
    → (if c then commit_answer (shown_ledger l) a (shown a x) else shown_ledger l)
      ≡ shown_ledger (if c then keep_answer l a x else l)
closed_ledger true l a x = keep-shown l a x
closed_ledger false l a x = refl

commits-Agrees :
    (t : Trace) (now text : String) (r : TurnOutcomeRecord) (n : ℕ)
    → get t.active r.agent_id ≡ some n
    → is_truthy r.agent_id ≡ true
    → Agrees t
    → Agrees (commit_outcome t now text r n)
unfolding commit_outcome
commits-Agrees t now text r n act truthy h =
    let a = r.agent_id in
    let c = is_completed r.outcome in
    let e = boundary now text r in
    let d = derived t.transcript in
    let step : derived (t.transcript ++ e ∷ []) ≡ close_for d c (some a) =
      derived-append t.transcript e ∙ step_boundary d (length t.transcript) now text r truthy in
    let slot : chosen (get d.pending a) ≡ shown a (find_turn_answer t.transcript n a) =
      ap chosen (h.slots a truthy ∙ ap (span_slot a t.transcript) act)
      ∙ chosen-slot_of a (said a n t.transcript)
      ∙ ap (shown a) (sym (find_turn_answer-said t.transcript n a (h.starts a n act))) in
    record {
      ledgers =
          ap (λ (x : Derived). x.ledger) step
          ∙ close_for-ledger d c a
          ∙ ap (λ x. if c then commit_answer d.ledger a x else d.ledger) slot
          ∙ ap
              (λ l.
                if c then commit_answer l a (shown a (find_turn_answer t.transcript n a)) else l)
              h.ledgers
          ∙ closed_ledger c t.ledger a (find_turn_answer t.transcript n a);
      slots = λ b tb.
          ap (λ (x : Derived). get x.pending b) step
          ∙ ap (λ p. get p b) (close_for-pending d c a)
          ∙ get-remove d.pending a b
          ∙ elim (Bool-cases (a == b)) [
            | inl y ↦
                rw y
                  (ap (span_slot b (t.transcript ++ e ∷ [])) (sym (get-remove_same t.active a b y)))
            | inr y ↦ rw y (
                h.slots b tb
                ∙ sym (
                    quiet b t.transcript e (get t.active b) (h.starts b)
                      (boundary_silent b now text r))
                ∙ ap (span_slot b (t.transcript ++ e ∷ []))
                    (sym (get-remove t.active a b ∙ rw y refl)))
          ];
      starts = λ b m k. ground (arith, get-remove t.active a b, starts_later t e h.starts b m);
    }

TurnReach-Agrees : {t : Trace} → TurnReach no_turns t → Agrees t
unfolding derive_from said get
TurnReach-Agrees here = record {
  ledgers = refl;
  slots = λ a ta. refl;
  starts = λ a n e. ground arith;
}
TurnReach-Agrees (next r (begins t a free)) = begins-Agrees t a free (TurnReach-Agrees r)
TurnReach-Agrees (next r (emits t e raw own)) = emits-Agrees t e raw own (TurnReach-Agrees r)
TurnReach-Agrees (next r (commits t now text o n act truthy)) =
    commits-Agrees t now text o n act truthy (TurnReach-Agrees r)

map-shown_ledger :
    (l : Dict Answer) → map (λ e. e.1) (shown_ledger l) ≡ map (λ e. shown_answer e.0 e.1) l
map-shown_ledger [] = refl
map-shown_ledger (e ∷ l) = ap (λ r. shown_answer e.0 e.1 ∷ r) (map-shown_ledger l)

-- However the turns of a session overlap, the answers that a restart finds in the logged events are the
-- answers of the live session, provided that agents speak only within their turns and that no backend
-- event carries the mark of a boundary.
pub restored_answers-live_answers :
    {t : Trace} → TurnReach no_turns t → restored_answers t.transcript ≡ live_answers t.ledger
unfolding restored_answers live_answers
restored_answers-live_answers {t} steps =
    ap (map (λ e. e.1)) (TurnReach-Agrees steps).ledgers ∙ map-shown_ledger t.ledger
