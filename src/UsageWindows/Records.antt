-- ===== src/UsageWindows/Records.antt =====
-- What the entry of a plan of agent_collab/usage_windows.py says of its decision.
use agent_collab.Base.{
  ℕ, String, Bool, true, false, Option, none, some, List, [], ◌∷◌, All, if◌then◌else◌, ◌==◌, ◌≡◌,
  refl, arith, ◌∙◌, ap,
}
use agent_collab.Base.Dict.{get, put, get-put}
use agent_collab.Base.Values.{Value, str, is_true}
use agent_collab.UsageWindows.{Moment, utc, Schedule, UsageWindowAnchor}
use agent_collab.UsageWindows.Planning.{
  Entry, or_null, look, is_text, parse_state_datetime, fresh_entry, observed_keys, carry_key,
  carry_over, update_plan,
}
use agent_collab.UsageWindows.Futures.{renewed}
use agent_collab.UsageWindows.Targets.{replan_latest, replan_late}
use agent_collab.UsageWindows.Matching.{HasMatch}

-- Looking up what was written.
pub look-put :
    (state : Entry) (j k : String) (v : Value)
    → look (put state j v) k ≡ (if j == k then v else look state k)
unfolding look
look-put state j k v = ground (arith, get-put state j k v)

module _ (from_iso : String → Option Moment) where
  -- A persisted text reads back as a moment of an instant.
  abbrev pub Names : Value → (instant : ℕ) → Type 0
  Names v t = (m : Moment) × (parse_state_datetime from_iso v ≡ some m) × (utc m ≡ t)

  -- An entry of this schedule that has this anchor, found among `anchors`, and this time.
  abbrev pub Recorded :
      (fingerprint : String)
      → List UsageWindowAnchor
      → Entry
      → (anchor planned_at : ℕ) → (catch_up : Bool) → Type 0
  Recorded fingerprint anchors state a p c =
      (is_text (look state "schedule_fingerprint") fingerprint ≡ true)
      × Names (look state "anchor") a
      × HasMatch anchors a
      × Names (look state "planned_at") p
      × (is_true (look state "catch_up") ≡ c)

  module _ (fingerprint : String) (anchors : List UsageWindowAnchor) (state : Entry) (a p : ℕ)
      (va vp : Value) where
    pub update_plan-Recorded :
        (c : Bool)
        → is_text (look state "schedule_fingerprint") fingerprint ≡ true
        → Names va a
        → HasMatch anchors a
        → Names vp p
        → Recorded fingerprint anchors (update_plan state va vp c) a p c
    unfolding update_plan is_true
    update_plan-Recorded c f na m np = simp look-put (f, na, m, np, refl)

    pub replan_latest-Recorded :
        (iso : Moment → String) (uniform : (round span : ℕ) → ℕ) (s : Schedule) (now : Moment)
        → is_text (look state "schedule_fingerprint") fingerprint ≡ true
        → Names va a
        → HasMatch anchors a
        → Names vp p
        → Recorded fingerprint anchors
            (replan_latest iso from_iso uniform s now state va vp)
            a
            p
            true
    unfolding replan_latest is_true
    replan_latest-Recorded iso uniform s now f na m np = simp look-put (f, na, m, np, refl)

    pub replan_late-Recorded :
        (iso : Moment → String) (uniform : (round span : ℕ) → ℕ) (s : Schedule) (now : Moment)
        → is_text (look state "schedule_fingerprint") fingerprint ≡ true
        → Names (look state "anchor") a
        → HasMatch anchors a
        → Names vp p
        → Recorded fingerprint anchors (replan_late iso from_iso uniform s now state vp) a p true
    unfolding replan_late is_true
    replan_late-Recorded iso uniform s now f na m np = simp look-put (f, na, m, np, refl)

-- Keys that are not carried over.
get-carry_key :
    (k j : String) (o : Option Value) (state : Entry)
    → (k == j) ≡ false
    → get (carry_key k o state) j ≡ get state j
get-carry_key k j none state h = refl
get-carry_key k j (some v) state h = get-put state k j v ∙ rw h refl

get-carry_over :
    (previous : Entry) (keys : List String) (state : Entry) (j : String)
    → All (λ k. (k == j) ≡ false) keys
    → get (carry_over previous keys state) j ≡ get state j
unfolding carry_over
get-carry_over previous [] state j hs = refl
get-carry_over previous (k ∷ ks) state j (h, hs) =
    get-carry_over previous ks (carry_key k (get previous k) state) j hs
    ∙ get-carry_key k j (get previous k) state h

pub renewed-fingerprint :
    (iso : Moment → String) (uniform : (round span : ℕ) → ℕ) (s : Schedule) (now : Moment)
    (previous : Entry)
    → look (renewed iso uniform s now previous) "schedule_fingerprint" ≡ str s.fingerprint
unfolding renewed look fresh_entry get
renewed-fingerprint iso uniform s now previous = ap or_null (
    get-carry_over previous observed_keys (fresh_entry s.fingerprint) "schedule_fingerprint"
      (refl, (refl, (refl, (refl, (refl, (refl, tt)))))))
