-- ===== src/Base/Text.antt =====
-- What the code uses of Python's `str`: a text is a list of characters.
use Prim.Native.Nat.{ℕ, zero, suc, ◌+◌, ◌-◌, ◌*◌, ◌/◌, ◌%◌}
use Prim.Native.Char.{Char, code}
use Prim.Native.String.{String, [], ◌∷◌, ◌++◌ as ◌<>◌}
use mathlib.Core.Bool.{Bool, true, false, not, ◌&&◌, ◌||◌}
use mathlib.Core.List.{List, [] as none_left, ◌∷◌ as ◌:∷◌}
use text.Mathlib.Text.{◌==◌}
use agent_collab.Base.Tests.{ltb, leb, ◌=?◌, if◌then◌else◌}
use agent_collab.Base.Lists.{any}

-- `str.isspace` of one character.
unfoldable pub is_space : Char → Bool
is_space ch =
    let c = code ch in
    (leb 9 c && leb c 13)
    || (leb 28 c && leb c 32)
    || (c =? 133)
    || (c =? 160)
    || (c =? 5760)
    || (leb 8192 c && leb c 8202)
    || (leb 8232 c && leb c 8233)
    || (c =? 8239)
    || (c =? 8287)
    || (c =? 12288)

-- s.lstrip()
unfoldable pub lstrip : String → String
unfolding is_space
lstrip [] = []
lstrip (c ∷ s) = let rest = lstrip s in if is_space c then rest else c ∷ s

-- s.rstrip()
unfoldable pub rstrip : String → String
unfolding is_space
rstrip [] = []
rstrip (c ∷ s) = let rest = rstrip s in if is_space c && (rest == "") then [] else c ∷ rest

-- s.strip()
unfoldable pub strip : String → String
unfolding lstrip rstrip
strip s = rstrip (lstrip s)

-- bool(s), s truthy
abbrev pub is_truthy : String → Bool
is_truthy s = not (s == "")

abbrev pub member : String → List String → Bool
member s names = any (λ n. n == s) names

unfoldable pub is_ascii_digit : Char → Bool
is_ascii_digit c = leb 48 (code c) && leb (code c) 57

-- every character satisfies `p`
unfoldable pub every : (Char → Bool) → String → Bool
every p [] = true
every p (c ∷ s) = p c && every p s

-- s.isascii() and s.isdigit()
unfoldable pub is_ascii_number : String → Bool
unfolding is_ascii_digit every
is_ascii_number s = is_truthy s && every is_ascii_digit s

-- int(s) of a text of ASCII digits
unfoldable pub to_number : ℕ → String → ℕ
to_number acc [] = acc
to_number acc (c ∷ s) = to_number (acc * 10 + (code c - 48)) s

-- s[-1:]
unfoldable pub last_char : String → String
last_char [] = []
last_char (c ∷ s) = let rest = last_char s in if s == "" then c ∷ [] else rest

-- s[:-1]
unfoldable pub but_last : String → String
but_last [] = []
but_last (c ∷ s) = let rest = but_last s in if s == "" then [] else c ∷ rest

unfoldable pub contains_char : ℕ → String → Bool
contains_char n [] = false
contains_char n (c ∷ s) = (code c =? n) || contains_char n s

-- len(s)
unfoldable pub count_chars : String → ℕ
count_chars [] = 0
count_chars (c ∷ s) = suc (count_chars s)

-- s[n:]
unfoldable pub drop_chars : ℕ → String → String
drop_chars zero s = s
drop_chars (suc n) [] = []
drop_chars (suc n) (c ∷ s) = drop_chars n s

-- s[:n]
unfoldable pub take_chars : ℕ → String → String
take_chars zero s = []
take_chars (suc n) [] = []
take_chars (suc n) (c ∷ s) = c ∷ take_chars n s

-- The bytes of one character in UTF-8.
unfoldable pub utf8_width : Char → ℕ
utf8_width ch =
    let c = code ch in
    if leb c 127 then 1 else if leb c 2047 then 2 else if leb c 65535 then 3 else 4

-- len(s.encode("utf-8"))
unfoldable pub byte_length : String → ℕ
unfolding utf8_width
byte_length [] = 0
byte_length (c ∷ s) = utf8_width c + byte_length s

-- s.encode("utf-8")[:n].decode("utf-8", errors="ignore"): the characters that fit whole. What is cut
-- in the middle is dropped, and nothing comes after it.
unfoldable pub take_bytes : ℕ → String → String
unfolding utf8_width
take_bytes n [] = []
take_bytes n (c ∷ s) =
    let rest = take_bytes (n - utf8_width c) s in if leb (utf8_width c) n then c ∷ rest else []

-- One decimal digit.
unfoldable pub digit_text : ℕ → String
digit_text n =
    if n =? 0
    then "0"
    else if n =? 1
    then "1"
    else if n =? 2
    then "2"
    else if n =? 3
    then "3"
    else if n =? 4
    then "4"
    else if n =? 5
    then "5"
    else if n =? 6
    then "6"
    else if n =? 7
    then "7"
    else if n =? 8
    then "8"
    else "9"

-- str(n), on more rounds than `n` has digits
unfoldable pub decimal_from : (fuel n : ℕ) → String → String
unfolding digit_text
decimal_from zero n acc = acc
decimal_from (suc fuel) n acc =
    let more = decimal_from fuel (n / 10) (digit_text (n % 10) <> acc) in
    if ltb n 10 then digit_text n <> acc else more

unfoldable pub decimal : ℕ → String
unfolding decimal_from
decimal n = decimal_from (suc n) n ""

-- sep.join(parts)
unfoldable pub join : (sep : String) → List String → String
join sep none_left = ""
join sep (p :∷ ps) =
    let rest = join sep ps in elim ps [ none_left ↦ p | q :∷ qs ↦ p <> (sep <> rest) ]
