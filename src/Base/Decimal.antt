-- ===== src/Base/Decimal.antt =====
-- Printing a number and reading it back.
use Prim.Native.Char.{Char, code}
use Prim.Native.String.{String, [], ◌∷◌, ◌++◌ as ◌<>◌}
use agent_collab.Base.Tests.{ltb, leb, ltb→lt, Bool-cases}
use Prim.Native.Nat.{ℕ, zero, suc, ◌+◌, ◌-◌, ◌*◌, ◌/◌, ◌%◌, ◌≤◌, ◌<◌}
use mathlib.Core.Path.{◌≡◌, refl, sym, ap, ◌∙◌}
use mathlib.Core.Logic.{inl, inr}
use mathlib.Core.Bool.{Bool, true, false, ◌&&◌}
use native.Mathlib.Omega.{arith}
use text.Mathlib.TextLemmas.{cons-append, nil-append}
use agent_collab.Base.Text.{digit_text, decimal_from, decimal, to_number, every}

digit_cases :
    (P : ℕ → Type 0)
    → P 0
    → P 1
    → P 2
    → P 3
    → P 4
    → P 5
    → P 6
    → P 7
    → P 8
    → P 9
    → (d : ℕ) → d < 10
    → P d
digit_cases P a b c d e f g h i j zero k = a
digit_cases P a b c d e f g h i j (suc zero) k = b
digit_cases P a b c d e f g h i j (suc (suc zero)) k = c
digit_cases P a b c d e f g h i j (suc (suc (suc zero))) k = d
digit_cases P a b c d e f g h i j (suc (suc (suc (suc zero)))) k = e
digit_cases P a b c d e f g h i j (suc (suc (suc (suc (suc zero))))) k = f
digit_cases P a b c d e f g h i j (suc (suc (suc (suc (suc (suc zero)))))) k = g
digit_cases P a b c d e f g h i j (suc (suc (suc (suc (suc (suc (suc zero))))))) k = h
digit_cases P a b c d e f g h i j (suc (suc (suc (suc (suc (suc (suc (suc zero)))))))) k = i
digit_cases P a b c d e f g h i j (suc (suc (suc (suc (suc (suc (suc (suc (suc zero))))))))) k = j
digit_cases P a b c d e f g h i j (suc (suc (suc (suc (suc (suc (suc (suc (suc (suc n)))))))))) k =
    absurd (omega arith)

not_ltb : (a b : ℕ) → ltb a b ≡ false → b ≤ a
not_ltb a b h = ground arith

one_char : (c : Char) (s : String) → (c ∷ []) <> s ≡ c ∷ s
one_char c s = cons-append c [] s ∙ ap (λ t. c ∷ t) (nil-append s)

to_number-digit_text :
    (acc : ℕ) (rest : String) (d : ℕ)
    → d < 10
    → to_number acc (digit_text d <> rest) ≡ to_number (acc * 10 + d) rest
unfolding to_number digit_text
to_number-digit_text acc rest d k =
    digit_cases (λ d. to_number acc (digit_text d <> rest) ≡ to_number (acc * 10 + d) rest) (at "0")
      (at "1") (at "2") (at "3") (at "4") (at "5") (at "6") (at "7") (at "8") (at "9") d k
  where
    at : (c : Char) → to_number acc ((c ∷ []) <> rest) ≡ to_number (acc * 10 + (code c - 48)) rest
    at c = ap (to_number acc) (one_char c rest)

-- `decimal` prints what `to_number` reads.
to_number-decimal_from :
    (fuel n : ℕ) (rest : String)
    → n < fuel
    → to_number 0 (decimal_from fuel n rest) ≡ to_number n rest
unfolding decimal_from
to_number-decimal_from zero n rest h = absurd (omega arith)
to_number-decimal_from (suc fuel) n rest h = elim (Bool-cases (ltb n 10)) [
  | inl e ↦
      rw e
        (to_number-digit_text 0 rest n (ltb→lt n 10 e) ∙ ap (λ k. to_number k rest) (omega arith))
  | inr e ↦ rw e (
      to_number-decimal_from fuel (n / 10) (digit_text (n % 10) <> rest) (smaller (not_ltb n 10 e))
      ∙ to_number-digit_text (n / 10) rest (n % 10) (omega arith)
      ∙ ap (λ k. to_number k rest) (omega arith))
]
  where
    smaller : 10 ≤ n → n / 10 < fuel
    smaller k = omega arith

pub to_number-decimal : (n : ℕ) → to_number 0 (decimal n) ≡ n
unfolding decimal to_number
to_number-decimal n = to_number-decimal_from (suc n) n "" (omega arith)

-- Two numbers that are printed alike are equal.
pub decimal_inj : (m n : ℕ) → decimal m ≡ decimal n → m ≡ n
decimal_inj m n e = sym (to_number-decimal m) ∙ ap (to_number 0) e ∙ to_number-decimal n

module _ (is_digit : Char → Bool)
    (ascii : (c : Char) → (leb 48 (code c) && leb (code c) 57) ≡ true → is_digit c ≡ true) where
  every-digit_text :
      (d : ℕ) (rest : String)
      → d < 10
      → every is_digit rest ≡ true
      → every is_digit (digit_text d <> rest) ≡ true
  unfolding every digit_text
  every-digit_text d rest k h =
      digit_cases (λ d. every is_digit (digit_text d <> rest) ≡ true) (at "0" refl) (at "1" refl)
        (at "2" refl) (at "3" refl) (at "4" refl) (at "5" refl) (at "6" refl) (at "7" refl)
        (at "8" refl) (at "9" refl) d k
    where
      at :
          (c : Char)
          → (leb 48 (code c) && leb (code c) 57) ≡ true
          → every is_digit ((c ∷ []) <> rest) ≡ true
      at c e = ap (every is_digit) (one_char c rest) ∙ rw (ascii c e, h) refl

  every-decimal_from :
      (fuel n : ℕ) (rest : String)
      → every is_digit rest ≡ true
      → every is_digit (decimal_from fuel n rest) ≡ true
  unfolding decimal_from
  every-decimal_from zero n rest h = h
  every-decimal_from (suc fuel) n rest h = elim (Bool-cases (ltb n 10)) [
    | inl e ↦ rw e (every-digit_text n rest (ltb→lt n 10 e) h)
    | inr e ↦
        rw e (every-decimal_from fuel (n / 10) _ (every-digit_text (n % 10) rest (omega arith) h))
  ]

  pub every-decimal : (n : ℕ) → every is_digit (decimal n) ≡ true
  unfolding decimal every
  every-decimal n = every-decimal_from (suc n) n "" refl
