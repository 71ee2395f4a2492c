-- ===== src/Outcomes/Evidence.antt =====
-- `TerminalEvidence` and `TerminalEvidenceAccumulator` of agent_collab/outcomes.py.
use agent_collab.Base.{
  ◌*◌, ◌^◌, String, Bool, true, false, not, ◌&&◌, ◌||◌, Option, none, some, List, [], ◌∷◌, ◌++◌,
  any, ◌=?◌, if◌then◌else◌, ◌==◌, Result,
}
use agent_collab.Base.Values.{null, str, ℤ, pos, negsuc, Float, finite, infinite}
use agent_collab.Outcomes.Codes.{Kind, completed, kind_name}
use agent_collab.Outcomes.Fields.{of_text, of_int, of_float}
use agent_collab.Outcomes.Turn.{TurnOutcome, make_outcome}

pub record TerminalEvidence : Type 0 where
  pub outcome : Kind
  pub code : Option String
  pub provider_stop_reason : Option String
  pub retry_after_seconds : Option Float

text_eq : Option String → Option String → Bool
text_eq none none = true
text_eq (some a) (some b) = a == b
text_eq _ _ = false

-- x == y of floats, by cross-multiplication
float_eq : Float → Float → Bool
float_eq (finite p m j) (finite q n k) =
    (m * 2 ^ k =? n * 2 ^ j) && ((m =? 0) || (p && q) || (not p && not q))
float_eq (infinite p) (infinite q) = (p && q) || (not p && not q)
float_eq _ _ = false

seconds_eq : Option Float → Option Float → Bool
unfolding float_eq
seconds_eq none none = true
seconds_eq (some a) (some b) = float_eq a b
seconds_eq _ _ = false

-- The generated `__eq__`. Two NaNs are unequal, as two float objects are.
unfoldable pub evidence_eq : TerminalEvidence → TerminalEvidence → Bool
unfolding text_eq seconds_eq kind_name
evidence_eq a b =
    (kind_name a.outcome == kind_name b.outcome)
    && text_eq a.code b.code
    && text_eq a.provider_stop_reason b.provider_stop_reason
    && seconds_eq a.retry_after_seconds b.retry_after_seconds

-- TerminalEvidence.to_outcome
unfoldable pub to_outcome : TerminalEvidence → Option ℤ → Result TurnOutcome
unfolding kind_name
to_outcome e exit_code =
    make_outcome (str (kind_name e.outcome)) (of_text e.code) null (of_text e.provider_stop_reason)
      (of_int exit_code) (of_float e.retry_after_seconds)

-- TerminalEvidenceAccumulator.add: what the list holds already is not added again.
unfoldable pub add : List TerminalEvidence → TerminalEvidence → List TerminalEvidence
unfolding evidence_eq
add held e = if any (λ x. evidence_eq x e) held then held else held ++ e ∷ []

-- TerminalEvidenceAccumulator.extend
unfoldable pub extend : List TerminalEvidence → List TerminalEvidence → List TerminalEvidence
unfolding add
extend held [] = held
extend held (e ∷ es) = extend (add held e) es

-- `process_exit_code not in (None, 0)`
unfoldable pub exit_failed : Option ℤ → Bool
exit_failed none = false
exit_failed (some (pos n)) = not (n =? 0)
exit_failed (some (negsuc n)) = true

abbrev pub failure : String → Option ℤ → Result TurnOutcome
failure code exit_code = make_outcome (str "failed") (str code) null null (of_int exit_code) null

abbrev pub success : Option ℤ → Result TurnOutcome
success exit_code = make_outcome (str "completed") null null null (of_int exit_code) null

-- `self._evidence[0].outcome != "completed"`
abbrev pub is_completed : Kind → Bool
is_completed completed = true
is_completed _ = false

-- The rest of `resolve` when at most one piece of evidence is held.
unfoldable pub resolve_one :
    Option TerminalEvidence → Option ℤ → Option String → Bool → Bool → Result TurnOutcome
unfolding to_outcome exit_failed
resolve_one (some e) exit_code exception clean_eof produced =
    if not (is_completed e.outcome) then to_outcome e exit_code else elim exception [
      | some code ↦ failure code exit_code
      | none ↦
          if exit_failed exit_code
          then failure "subprocess_exit_nonzero" exit_code
          else to_outcome e exit_code
    ]
resolve_one none exit_code exception clean_eof produced = elim exception [
  | some code ↦ failure code exit_code
  | none ↦
      if exit_failed exit_code
      then failure "subprocess_exit_nonzero" exit_code
      else if clean_eof
      then (if produced then success exit_code else failure "provider_empty_response" exit_code)
      else failure "provider_output_incomplete" exit_code
]

-- TerminalEvidenceAccumulator.resolve
unfoldable pub resolve :
    List TerminalEvidence → Option ℤ → Option String → Bool → Bool → Result TurnOutcome
unfolding resolve_one
resolve (e ∷ f ∷ more) exit_code exception clean_eof produced =
    failure "provider_protocol_conflict" exit_code
resolve (e ∷ []) exit_code exception clean_eof produced =
    resolve_one (some e) exit_code exception clean_eof produced
resolve [] exit_code exception clean_eof produced =
    resolve_one none exit_code exception clean_eof produced
