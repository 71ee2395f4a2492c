-- ===== src/Referee/Acceptance.antt =====
-- The records of a parallel stage and its accepted members.
use agent_collab.Base.{
  ℕ, String, ◌≡◌, refl, sym, ap, ap₂, ◌∙◌, Bool, true, false, ◌&&◌, ◌||◌, Option, none, some, List,
  [], ◌∷◌, All, any, select, arith, if◌then◌else◌, ◌==◌, eq_refl, Bool-cases, inl, inr,
}
use agent_collab.Base.Text.{member}
use agent_collab.Base.Dict.{Dict, get}
use agent_collab.Outcomes.Records.{TurnOutcomeRecord}
use agent_collab.Referee.Progress.{Progress, going, halted, parallel_failed}
use agent_collab.Referee.Parallel.{
  Phase, waiting, running, recorded, fell, all_recorded, collect_one, collect, is_accepted,
  require_accepted,
}
use agent_collab.Referee.Members.{phase_completed, has_fallen, same_text}

abbrev pub is_over : Option Phase → Bool
is_over (some (recorded r)) = true
is_over (some (fell h)) = true
is_over _ = false

collect_none : (phases : Dict Phase) → collect phases [] ≡ all_recorded []
unfolding collect
collect_none phases = refl

collect_recorded :
    (phases : Dict Phase) (m : String) (ms : List String) (r : TurnOutcomeRecord)
    (records : Dict TurnOutcomeRecord)
    → get phases m ≡ some (recorded r)
    → collect phases ms ≡ all_recorded records
    → collect phases (m ∷ ms) ≡ all_recorded ((m, r) ∷ records)
unfolding collect
collect_recorded phases m ms r records at all = ap₂ (collect_one m) at all

member_later :
    (m a : String) (ms : List String)
    → (m == a) ≡ false
    → member a (m ∷ ms) ≡ true
    → member a ms ≡ true
member_later m a ms k e = ground arith

-- Every member that is over has a record, which is accepted if it completed.
pub collected :
    (phases : Dict Phase)
    → ((a : String) → has_fallen (get phases a) ≡ false)
    → (members : List String) → All (λ a. is_over (get phases a) ≡ true) members
    → (records : Dict TurnOutcomeRecord) × (collect phases members ≡ all_recorded records)
      × ((a : String) (produced : Bool)
          → member a members ≡ true
          → is_accepted (get records a) produced ≡ (phase_completed (get phases a) && produced))
unfolding get
collected phases standing [] over = ([], collect_none phases, λ a produced e. cc)
collected phases standing (m ∷ ms) (over, more) =
    go (get phases m) refl over (standing m) (collected phases standing ms more)
  where
    go :
        (phase : Option Phase)
        → get phases m ≡ phase
        → is_over phase ≡ true
        → has_fallen phase ≡ false
        → ((records : Dict TurnOutcomeRecord) × (collect phases ms ≡ all_recorded records)
            × ((a : String) (produced : Bool)
                → member a ms ≡ true
                → is_accepted (get records a) produced
                  ≡ (phase_completed (get phases a) && produced)))
        → (records : Dict TurnOutcomeRecord) × (collect phases (m ∷ ms) ≡ all_recorded records)
          × ((a : String) (produced : Bool)
              → member a (m ∷ ms) ≡ true
              → is_accepted (get records a) produced ≡ (phase_completed (get phases a) && produced))
    go (some (recorded r)) at over_ standing_ (records, all, agree) =
        ((m, r) ∷ records, collect_recorded phases m ms r records at all, accepts)
      where
        accepts :
            (a : String) (produced : Bool)
            → member a (m ∷ ms) ≡ true
            → is_accepted (get ((m, r) ∷ records) a) produced
              ≡ (phase_completed (get phases a) && produced)
        accepts a produced e = elim (Bool-cases (m == a)) [
          | inl k ↦ rw k (
              ap (λ x. phase_completed x && produced) (sym at)
              ∙ ap (λ x. phase_completed (get phases x) && produced) (same_text m a k))
          | inr k ↦ rw k (agree a produced (member_later m a ms k e))
        ]
    go (some (fell h)) at over_ standing_ rest = cc
    go (some (waiting id)) at over_ standing_ rest = cc
    go (some (running id n)) at over_ standing_ rest = cc
    go none at over_ standing_ rest = cc

pub require_accepted-select :
    (q : Progress) (n : ℕ) (f g : String → Bool) (members : List String)
    → ((a : String) → member a members ≡ true → f a ≡ g a)
    → require_accepted q n (select f members)
      ≡ (if any g members then going q else halted q (parallel_failed n))
require_accepted-select q n f g [] same = refl
require_accepted-select q n f g (m ∷ ms) same =
    go (g m) refl (same m (ap (λ b. b || member m ms) (eq_refl m)))
      (require_accepted-select q n f g ms (λ a e. same a (member_more m a ms e)))
  where
    member_more : (m a : String) (ms : List String) → member a ms ≡ true → member a (m ∷ ms) ≡ true
    member_more m a ms e = ground arith

    go :
        (b : Bool)
        → g m ≡ b
        → f m ≡ g m
        → require_accepted q n (select f ms)
          ≡ (if any g ms then going q else halted q (parallel_failed n))
        → require_accepted q n (select f (m ∷ ms))
          ≡ (if any g (m ∷ ms) then going q else halted q (parallel_failed n))
    go true e fe rest = rw (fe, e) refl
    go false e fe rest = rw (fe, e) rest
