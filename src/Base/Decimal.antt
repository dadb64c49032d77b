-- ===== src/Base/Decimal.antt =====
-- Printing and parsing of integers in decimal, as `format!` and `str::parse` do.
use Prim.Native.Nat.{ℕ, zero, suc, ◌+◌, ◌-◌, ◌*◌, ◌/◌, ◌%◌, ◌^◌, ◌≤◌, ◌<◌}
use mathlib.Core.Path.{◌≡◌, refl, ap, ◌∙◌}
use mathlib.Core.Logic.{inl, inr}
use mathlib.Core.Option.{Option, none, some}
use mathlib.Core.List.{[], ◌∷◌, ◌++◌}
use native.Mathlib.Omega.{arith}
use tellm.Base.Tests.{ltb, leb, ◌==◌, if◌then◌else◌, Bool-cases}
use tellm.Base.Words.{I64}
use tellm.Base.Chars.{Text, is_digit}

-- The fuel is a number above `n`, which has at most `n` digits or is 0.
unfoldable pub decimal_from : ℕ → ℕ → Text
decimal_from zero n = []
decimal_from (suc fuel) n =
    let rest = decimal_from fuel (n / 10) in
    if ltb n 10 then (b'0' + n) ∷ [] else rest ++ (b'0' + n % 10) ∷ []

-- An unsigned number, printed.
unfoldable pub decimal : ℕ → Text
unfolding decimal_from
decimal n = decimal_from (suc n) n

-- Digits, read behind `n`; a value above `limit` or another character is an error.
unfoldable pub parse_digits : ℕ → Text → ℕ → Option ℕ
parse_digits limit [] n = some n
parse_digits limit (c ∷ s) n =
    let d = n * 10 + (c - b'0') in
    let rest = parse_digits limit s d in
    if is_digit c then (if leb d limit then rest else none) else none

-- At least one digit.
unfoldable pub parse_nonempty : ℕ → Text → Option ℕ
unfolding parse_digits
parse_nonempty limit [] = none
parse_nonempty limit (c ∷ s) = parse_digits limit (c ∷ s) 0

-- The pattern of the negative number.
unfoldable pub negated : Option ℕ → Option I64
negated none = none
negated (some n) = some ((2 ^ 64 - n) % 2 ^ 64)

-- `str::parse::<i64>`: an optional sign and at least one digit.
unfoldable pub parse_i64 : Text → Option I64
unfolding parse_nonempty negated
parse_i64 [] = none
parse_i64 (c ∷ s) =
    if c == b'-'
    then negated (parse_nonempty (2 ^ 63) s)
    else if c == b'+'
    then parse_nonempty (2 ^ 63 - 1) s
    else parse_nonempty (2 ^ 63 - 1) (c ∷ s)

-- `i64::to_string`
unfoldable pub i64_to_string : I64 → Text
i64_to_string n = if ltb n (2 ^ 63) then decimal n else b'-' ∷ decimal (2 ^ 64 - n)

parse_digits-append :
    (limit n v : ℕ) (s t : Text)
    → parse_digits limit s n ≡ some v
    → parse_digits limit (s ++ t) n ≡ parse_digits limit t v
unfolding parse_digits
parse_digits-append limit n v [] t h = ground arith
parse_digits-append limit n v (c ∷ s) t h =
    ground (arith, parse_digits-append limit (n * 10 + (c - b'0')) v s t)

parse_digits-decimal_from :
    (limit fuel n : ℕ) → n < fuel → n ≤ limit → parse_digits limit (decimal_from fuel n) 0 ≡ some n
unfolding decimal_from
parse_digits-decimal_from limit zero n h p = absurd (omega arith)
parse_digits-decimal_from limit (suc fuel) n h p = elim (Bool-cases (ltb n 10)) [
  | inl small ↦ rw small (unfold parse_digits in ground arith)
  | inr big ↦ rw big (
      parse_digits-append limit 0 (n / 10) (decimal_from fuel (n / 10)) ((b'0' + n % 10) ∷ [])
        (parse_digits-decimal_from limit fuel (n / 10) (ground arith) (omega arith))
      ∙ (unfold parse_digits in ground arith))
]

-- The first character is a digit.
abbrev StartsWithDigit : Text → Type 0
StartsWithDigit [] = ⊥
StartsWithDigit (c ∷ s) = (b'0' ≤ c) × (c ≤ b'9')

append-StartsWithDigit : (s t : Text) → StartsWithDigit s → StartsWithDigit (s ++ t)
append-StartsWithDigit [] t h = absurd h
append-StartsWithDigit (c ∷ s) t h = h

decimal_from-StartsWithDigit : (fuel n : ℕ) → n < fuel → StartsWithDigit (decimal_from fuel n)
unfolding decimal_from
decimal_from-StartsWithDigit zero n h = absurd (omega arith)
decimal_from-StartsWithDigit (suc fuel) n h = elim (Bool-cases (ltb n 10)) [
  | inl small ↦ rw small (ground arith)
  | inr big ↦ rw big (
      append-StartsWithDigit (decimal_from fuel (n / 10)) _
        (decimal_from-StartsWithDigit fuel (n / 10) (ground arith)))
]

nonempty_digits :
    (limit : ℕ) (s : Text) → StartsWithDigit s → parse_nonempty limit s ≡ parse_digits limit s 0
unfolding parse_nonempty
nonempty_digits limit [] h = absurd h
nonempty_digits limit (c ∷ s) h = refl

unsigned_digits : (s : Text) → StartsWithDigit s → parse_i64 s ≡ parse_digits (2 ^ 63 - 1) s 0
unfolding parse_i64
unsigned_digits [] h = absurd h
unsigned_digits (c ∷ s) h = ground arith

decimal-StartsWithDigit : (n : ℕ) → StartsWithDigit (decimal n)
unfolding decimal
decimal-StartsWithDigit n = decimal_from-StartsWithDigit (suc n) n (omega arith)

parse_digits-decimal : (limit n : ℕ) → n ≤ limit → parse_digits limit (decimal n) 0 ≡ some n
unfolding decimal
parse_digits-decimal limit n h = parse_digits-decimal_from limit (suc n) n (omega arith) h

pub parse_nonempty-decimal : (limit n : ℕ) → n ≤ limit → parse_nonempty limit (decimal n) ≡ some n
parse_nonempty-decimal limit n h =
    nonempty_digits limit (decimal n) (decimal-StartsWithDigit n) ∙ parse_digits-decimal limit n h

parse_i64-minus : (s : Text) → parse_i64 (b'-' ∷ s) ≡ negated (parse_nonempty (2 ^ 63) s)
unfolding parse_i64
parse_i64-minus s = refl

-- Every `i64` is read back from its text.
pub parse_i64-i64_to_string : (n : I64) → n < 2 ^ 64 → parse_i64 (i64_to_string n) ≡ some n
unfolding i64_to_string
parse_i64-i64_to_string n h = elim (Bool-cases (ltb n (2 ^ 63))) [
  | inl positive ↦ rw positive (
      unsigned_digits (decimal n) (decimal-StartsWithDigit n)
      ∙ parse_digits-decimal (2 ^ 63 - 1) n (ground arith))
  | inr negative ↦ rw negative (
      parse_i64-minus (decimal (2 ^ 64 - n))
      ∙ (rw (parse_nonempty-decimal (2 ^ 63) (2 ^ 64 - n) (ground arith))
          (unfold negated in ap some (ground arith))))
]
