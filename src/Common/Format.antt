-- ===== src/Common/Format.antt =====
-- The formatting functions of Rust's standard library that the source calls.
use db233_rust.Common.Base.{
  ℕ, zero, suc, ◌+◌, ◌/◌, ◌%◌, Bool, true, false, ◌&&◌, List, [], ◌∷◌, ◌++◌, Option, none, some,
  Text, ltb, leb, ◌==◌, if◌then◌else◌, ◌<◌, ◌≡◌, arith,
}

-- The digits of `n` before `out`; each round takes one unit of fuel, and `n + 1` rounds are enough.
digits : ℕ → ℕ → Text → Text
digits zero n out = out
digits (suc f) n out = elim (n / 10) [
  | zero ↦ (b'0' + n % 10) ∷ out
  | suc q ↦ digits f (suc q) ((b'0' + n % 10) ∷ out)
]

-- `{}` at an unsigned integer
unfoldable pub decimal : ℕ → Text
unfolding digits
decimal n = digits (suc n) n []

-- `{:02}` at an unsigned integer
unfoldable pub two_digits : ℕ → Text
unfolding decimal
two_digits n = if ltb n 10 then b'0' ∷ decimal n else decimal n

-- `parts.join(sep)`
unfoldable pub join : Text → List Text → Text
join sep [] = []
join sep (s ∷ []) = s
join sep (s ∷ t ∷ parts) = s ++ (sep ++ join sep (t ∷ parts))

-- `s.repeat(n)`
unfoldable pub repeat : ℕ → Text → Text
repeat zero s = []
repeat (suc n) s = s ++ repeat n s

-- `s.trim_end_matches(c)` at a one-byte character
unfoldable pub trim_end_matches : ℕ → Text → Text
trim_end_matches c [] = []
trim_end_matches c (x ∷ s) = elim (trim_end_matches c s) [
  | [] ↦ if x == c then [] else x ∷ []
  | y ∷ t ↦ x ∷ y ∷ t
]

-- What may follow a byte, as the number of continuation bytes and the bounds of the first of them.
abbrev after_lead : ℕ → Option (ℕ × ℕ × ℕ)
after_lead b =
    if ltb b 0x80
    then some (0, 0x80, 0xBF)
    else if ltb b 0xC2
    then none
    else if ltb b 0xE0
    then some (1, 0x80, 0xBF)
    else if b == 0xE0
    then some (2, 0xA0, 0xBF)
    else if b == 0xED
    then some (2, 0x80, 0x9F)
    else if ltb b 0xF0
    then some (2, 0x80, 0xBF)
    else if b == 0xF0
    then some (3, 0x90, 0xBF)
    else if ltb b 0xF4
    then some (3, 0x80, 0xBF)
    else if b == 0xF4
    then some (3, 0x80, 0x8F)
    else none

utf8_from : Option (ℕ × ℕ × ℕ) → Text → Bool
utf8_from none s = false
utf8_from (some (zero, lo, hi)) [] = true
utf8_from (some (zero, lo, hi)) (b ∷ s) = utf8_from (after_lead b) s
utf8_from (some (suc n, lo, hi)) [] = false
utf8_from (some (suc n, lo, hi)) (b ∷ s) =
    leb lo b && leb b hi && utf8_from (some (n, 0x80, 0xBF)) s

-- Whether `String::from_utf8` succeeds.
unfoldable pub is_utf8 : Text → Bool
unfolding utf8_from
is_utf8 = utf8_from (some (0, 0x80, 0xBF))

-- A byte of ASCII is a character of its own.
pub is_utf8-ascii : (b : ℕ) (s : Text) → b < 0x80 → is_utf8 (b ∷ s) ≡ is_utf8 s
unfolding is_utf8 utf8_from
is_utf8-ascii b s h = ground arith
