-- ===== src/Outcomes/Resolution.antt =====
-- `TerminalEvidenceAccumulator`: what the pieces of evidence of one turn add up to.
use agent_collab.Base.{
  String, ◌≡◌, refl, inl, inr, Bool, true, false, Option, none, some, List, [], ◌∷◌, ◌++◌, any, all,
  arith, ok, if◌then◌else◌, Bool-cases,
}
use agent_collab.Base.Values.{Value, null, str, ℤ}
use agent_collab.Outcomes.Codes.{completed, failed, kind_name}
use agent_collab.Outcomes.Fields.{of_text, of_int, of_float, parse_kind}
use agent_collab.Outcomes.Turn.{TurnOutcome, make_outcome}
use agent_collab.Outcomes.Canonical.{parse_kind-kind_name}
use agent_collab.Outcomes.Evidence.{
  TerminalEvidence, evidence_eq, to_outcome, add, extend, exit_failed, failure, resolve_one,
  resolve,
}

-- Two held pieces stay two or more.
extend_conflict :
    (more : List TerminalEvidence) (e f : TerminalEvidence) (es : List TerminalEvidence)
    (exit : Option ℤ) (exception : Option String) (clean_eof produced : Bool)
    → resolve (extend (e ∷ f ∷ more) es) exit exception clean_eof produced
      ≡ failure "provider_protocol_conflict" exit
unfolding extend resolve
extend_conflict more e f [] exit exception clean_eof produced = refl
extend_conflict more e f (g ∷ es) exit exception clean_eof produced =
    elim (Bool-cases (any (λ x. evidence_eq x g) (e ∷ f ∷ more))) [
      | inl old ↦ rw (old, add) (extend_conflict more e f es exit exception clean_eof produced)
      | inr new ↦
          rw (new, add) (extend_conflict (more ++ g ∷ []) e f es exit exception clean_eof produced)
    ]

extend_one :
    (e : TerminalEvidence) (es : List TerminalEvidence) (exit : Option ℤ)
    (exception : Option String) (clean_eof produced : Bool)
    → resolve (extend (e ∷ []) es) exit exception clean_eof produced ≡ (
        if all (λ x. evidence_eq e x) es
        then resolve (e ∷ []) exit exception clean_eof produced
        else failure "provider_protocol_conflict" exit)
unfolding extend add
extend_one e [] exit exception clean_eof produced = refl
extend_one e (f ∷ es) exit exception clean_eof produced = elim (Bool-cases (evidence_eq e f)) [
  | inl same ↦ rw same (extend_one e es exit exception clean_eof produced)
  | inr other ↦ rw other (extend_conflict [] e f es exit exception clean_eof produced)
]

-- Evidence added in any number of pieces resolves as its first piece alone if all others equal it,
-- and as a protocol conflict as soon as one differs, whatever the exit code and the exception say.
pub resolve-extend :
    (e : TerminalEvidence) (es : List TerminalEvidence) (exit : Option ℤ)
    (exception : Option String) (clean_eof produced : Bool)
    → resolve (extend [] (e ∷ es)) exit exception clean_eof produced ≡ (
        if all (λ x. evidence_eq e x) es
        then resolve_one (some e) exit exception clean_eof produced
        else failure "provider_protocol_conflict" exit)
unfolding extend add resolve
resolve-extend e es exit exception clean_eof produced =
    extend_one e es exit exception clean_eof produced

make_outcome-outcome :
    (kind code message reason exit retry : Value) (o : TurnOutcome)
    → make_outcome kind code message reason exit retry ≡ ok o
    → parse_kind kind ≡ ok o.outcome
unfolding make_outcome
make_outcome-outcome kind code message reason exit retry o h = ground arith

pub parse_failed : parse_kind (str "failed") ≡ ok failed
unfolding kind_name
parse_failed = parse_kind-kind_name failed

failure-outcome :
    (code : String) (exit : Option ℤ) (o : TurnOutcome)
    → failure code exit ≡ ok o
    → o.outcome ≡ failed
failure-outcome code exit o h =
    cc (
      parse_failed,
      make_outcome-outcome (str "failed") (str code) null null (of_int exit) null o h,
    )

to_outcome-outcome :
    (e : TerminalEvidence) (exit : Option ℤ) (o : TurnOutcome)
    → to_outcome e exit ≡ ok o
    → o.outcome ≡ e.outcome
unfolding to_outcome
to_outcome-outcome e exit o h = cc (
  parse_kind-kind_name e.outcome,
  make_outcome-outcome (str (kind_name e.outcome)) (of_text e.code) null
      (of_text e.provider_stop_reason) (of_int exit) (of_float e.retry_after_seconds) o h,
)

-- What a completed turn rests on: one piece of completed evidence, or a clean end of output after
-- a message.
abbrev pub Supports : List TerminalEvidence → Bool → Bool → Type 0
Supports [] clean_eof produced = (clean_eof ≡ true) × (produced ≡ true)
Supports (e ∷ []) clean_eof produced = e.outcome ≡ completed
Supports (e ∷ f ∷ more) clean_eof produced = ⊥

-- A turn resolves as completed only if no exception was seen, the process did not exit with a
-- failure, and the evidence supports it: a single completed piece, or none at all after a clean end
-- of output that produced a message.
pub resolve_completed :
    (held : List TerminalEvidence) (exit : Option ℤ) (exception : Option String)
    (clean_eof produced : Bool) (o : TurnOutcome)
    → resolve held exit exception clean_eof produced ≡ ok o
    → o.outcome ≡ completed
    → (exception ≡ none) × (exit_failed exit ≡ false) × Supports held clean_eof produced
unfolding resolve
resolve_completed [] exit none clean_eof produced o h c = ground (
  arith,
  failure-outcome "subprocess_exit_nonzero" exit o,
  failure-outcome "provider_empty_response" exit o,
  failure-outcome "provider_output_incomplete" exit o,
)
resolve_completed [] exit (some code) clean_eof produced o h c =
    ground (arith, failure-outcome code exit o)
resolve_completed (e ∷ []) exit none clean_eof produced o h c =
    ground (arith, failure-outcome "subprocess_exit_nonzero" exit o, to_outcome-outcome e exit o)
resolve_completed (e ∷ []) exit (some code) clean_eof produced o h c =
    ground (arith, failure-outcome code exit o, to_outcome-outcome e exit o)
resolve_completed (e ∷ f ∷ more) exit exception clean_eof produced o h c =
    ground (arith, failure-outcome "provider_protocol_conflict" exit o)
