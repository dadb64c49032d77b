-- ===== src/Access/Code/SixDigits.antt =====
-- Every pairing code is six ASCII digits, whatever the generator returns.
use tellm.Base.{
  ℕ, zero, suc, ◌+◌, ◌-◌, ◌/◌, ◌%◌, ◌^◌, ◌≤◌, ◌<◌, ◌≡◌, inl, inr, [], ◌∷◌, length, take, replicate,
  keep_if, unwrap_or, All, All-append, All-take, length-append, length-replicate, Bool-cases, arith,
  ltb, ==_iff, ◌==◌, Text, is_digit,
}
use native.Mathlib.Nat.{pow-suc}
use tellm.Base.Decimal.{decimal_from, decimal}
use tellm.Access.Code.{zero_padded, parse_u32, normalize_pairing_code}

abbrev pub IsDigit : ℕ → Type 0
IsDigit c = (b'0' ≤ c) × (c ≤ b'9')

-- Six characters, all of them digits.
abbrev pub IsCode : Text → Type 0
IsCode t = (length t ≡ 6) × All IsDigit t

decimal_from-digits : (fuel n : ℕ) → All IsDigit (decimal_from fuel n)
unfolding decimal_from
decimal_from-digits zero n = tt
decimal_from-digits (suc fuel) n = elim (Bool-cases (ltb n 10)) [
  | inl small ↦ rw small (ground arith)
  | inr big ↦ rw big (
      All-append IsDigit (decimal_from fuel (n / 10)) _ (decimal_from-digits fuel (n / 10))
        (ground arith))
]

decimal_from-length : (k fuel n : ℕ) → n < 10 ^ suc k → length (decimal_from fuel n) ≤ suc k
unfolding decimal_from
decimal_from-length k zero n h = omega arith
decimal_from-length zero (suc fuel) n h = ground arith
decimal_from-length (suc k) (suc fuel) n h = elim (Bool-cases (ltb n 10)) [
  | inl small ↦ rw small (omega arith)
  | inr big ↦ rw big (
      omega (
        arith,
        length-append (decimal_from fuel (n / 10)) ((b'0' + n % 10) ∷ []),
        decimal_from-length k fuel (n / 10) (omega (arith, pow-suc 10 (suc k))),
      ))
]

All-replicate : (k c : ℕ) → IsDigit c → All IsDigit (replicate k c)
All-replicate zero c h = tt
All-replicate (suc k) c h = (h, All-replicate k c h)

pub zero_padded-IsCode : (n : ℕ) → n < 1000000 → IsCode (zero_padded n)
unfolding zero_padded decimal
zero_padded-IsCode n h =
    let short : length (decimal_from (suc n) n) ≤ 6 = decimal_from-length 5 (suc n) n h in
    (
      omega (
        arith,
        length-append (replicate (6 - length (decimal_from (suc n) n)) b'0')
            (decimal_from (suc n) n),
        length-replicate {A = ℕ} (6 - length (decimal_from (suc n) n)) b'0',
      ),
      All-append IsDigit _ _
          (All-replicate (6 - length (decimal_from (suc n) n)) b'0' (omega arith))
          (decimal_from-digits (suc n) n),
    )

kept-digits : (s : Text) → All IsDigit (keep_if is_digit s)
kept-digits [] = tt
kept-digits (c ∷ s) = elim (Bool-cases (is_digit c)) [
  | inl d ↦ rw d (ground arith, kept-digits s)
  | inr d ↦ rw d (kept-digits s)
]

-- The normal form of any text is six digits.
pub normalize_pairing_code-IsCode : (code : Text) → IsCode (normalize_pairing_code code)
unfolding normalize_pairing_code
normalize_pairing_code-IsCode code =
    let digits = take 6 (keep_if is_digit code) in
    elim (Bool-cases (length digits == 6)) [
      | inl six ↦
          rw six ((==_iff _ 6).0 six, All-take IsDigit 6 (keep_if is_digit code) (kept-digits code))
      | inr other ↦
          rw other (zero_padded-IsCode (unwrap_or (parse_u32 digits) 0 % 1000000) (omega arith))
    ]
