-- ===== src/Referee/Numbering.antt =====
-- The ids of turns: they are valid, and those of different numbers differ.
use Prim.Native.Char.{Char, code}
use Prim.Native.String.{◌∷◌, ◌++◌ as ◌<>◌}
use text.Mathlib.TextLemmas.{append_cancel_left, cons-append, nil-append}
use text.Mathlib.TextPositions.{starts_with-append}
use agent_collab.Base.{
  ℕ, suc, ◌+◌, ◌≤◌, ◌<◌, String, ◌≡◌, refl, sym, ap, ◌∙◌, Bool, true, false, ◌&&◌, List, [], ◌∷◌,
  ◌++◌, any, length, arith, leb, ◌==◌, eq_iff, ok, Bool-cases, inl, inr,
}
use agent_collab.Base.Text.{to_number, decimal_from, digit_text, decimal, is_truthy, drop_chars}
use agent_collab.Base.Decimal.{to_number-decimal, decimal_inj, every-decimal}
use agent_collab.Base.Values.{str}
use agent_collab.Outcomes.Records.{TurnOutcomeRecord, is_turn_id, check_turn_id}
use agent_collab.Referee.Progress.{turn_id_of}

pub turn_id_of_inj : (m n : ℕ) → turn_id_of m ≡ turn_id_of n → m ≡ n
unfolding turn_id_of
turn_id_of_inj m n e = decimal_inj m n (append_cancel_left "turn-" (decimal m) (decimal n) e)

-- The records of the turns number `n`, `n + 1`, and so on.
abbrev pub IsNumbered : ℕ → List TurnOutcomeRecord → Type 0
IsNumbered n [] = Unit
IsNumbered n (r ∷ rs) = (r.turn_id ≡ turn_id_of n) × IsNumbered (suc n) rs

pub IsNumbered-append_one :
    (n : ℕ) (rs : List TurnOutcomeRecord) (r : TurnOutcomeRecord)
    → IsNumbered n rs
    → r.turn_id ≡ turn_id_of (n + length rs)
    → IsNumbered n (rs ++ r ∷ [])
IsNumbered-append_one n [] r h e = (e ∙ ap turn_id_of (omega arith), tt)
IsNumbered-append_one n (x ∷ rs) r (hx, h) e =
    (hx, IsNumbered-append_one (suc n) rs r h (e ∙ ap turn_id_of (omega arith)))

other_id : (m n : ℕ) (x y : String) → x ≡ turn_id_of m → y ≡ turn_id_of n → m < n → (x == y) ≡ false
other_id m n x y ex ey h = elim (Bool-cases (x == y)) [
  | inr e ↦ e
  | inl e ↦ absurd (differ (turn_id_of_inj m n (sym ex ∙ (eq_iff x y).0 e ∙ ey)))
]
  where
    differ : m ≡ n → ⊥
    differ k = omega arith

-- A later turn's id is new.
pub any-IsNumbered :
    (n m : ℕ) (rs : List TurnOutcomeRecord) (id : String)
    → IsNumbered n rs
    → id ≡ turn_id_of m
    → n + length rs ≤ m
    → any (λ x. x.turn_id == id) rs ≡ false
any-IsNumbered n m [] id h e k = refl
any-IsNumbered n m (r ∷ rs) id (hr, h) e k =
    let here : (r.turn_id == id) ≡ false = other_id n m r.turn_id id hr e (omega arith) in
    ground (arith, here, any-IsNumbered (suc n) m rs id h e (omega arith))

drop_prefix : (s : String) → drop_chars 5 ("turn-" <> s) ≡ s
unfolding drop_chars
drop_prefix s = ap (drop_chars 5) (
    step "t" "urn-" _
      (step "u" "rn-" _ (step "r" "n-" _ (step "n" "-" _ (step "-" "" s (nil-append s))))))
  where
    step : (c : Char) (a b : String) → a <> s ≡ b → (c ∷ a) <> s ≡ c ∷ b
    step c a b e = cons-append c a s ∙ ap (λ t. c ∷ t) e

none_read : to_number 0 "" ≡ 0
unfolding to_number
none_read = refl

zero_printed : (decimal 0 == "") ≡ false
unfolding decimal decimal_from digit_text
zero_printed = refl

-- No number is printed as the empty text.
decimal_truthy : (n : ℕ) → is_truthy (decimal n) ≡ true
decimal_truthy n = elim (Bool-cases (decimal n == "")) [
  | inr e ↦ rw e refl
  | inl e ↦ absurd (differ (zero_only ((eq_iff (decimal n) "").0 e)) e)
]
  where
    zero_only : decimal n ≡ "" → n ≡ 0
    zero_only e = sym (to_number-decimal n) ∙ ap (to_number 0) e ∙ none_read

    differ : n ≡ 0 → (decimal n == "") ≡ true → ⊥
    differ z e = cc (ap (λ m. decimal m == "") z, e, zero_printed)

module _ (is_digit : Char → Bool)
    (ascii : (c : Char) → (leb 48 (code c) && leb (code c) 57) ≡ true → is_digit c ≡ true) where
  pub check_turn_id-turn_id_of :
      (n : ℕ) → check_turn_id is_digit (str (turn_id_of n)) ≡ ok (turn_id_of n)
  unfolding check_turn_id is_turn_id turn_id_of
  check_turn_id-turn_id_of n =
      rw
        (
          starts_with-append "turn-" (decimal n),
          drop_prefix (decimal n),
          decimal_truthy n,
          every-decimal is_digit ascii n,
        )
        refl
