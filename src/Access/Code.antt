-- ===== src/Access/Code.antt =====
-- src/access.rs: pairing codes, their normal form, their random choice and their comparison.
pub mod Compare
pub mod Draw
pub mod SixDigits
use Prim.Native.Nat.{bit_or, bit_xor}
use tellm.Base.Decimal.{decimal, parse_nonempty}
use tellm.Base.{
  ℕ, zero, suc, ◌+◌, ◌-◌, ◌*◌, ◌/◌, ◌%◌, ◌^◌, ◌≤◌, ◌<◌, max, Bool, true, false, Option, none, some,
  List, [], ◌∷◌, ◌++◌, length, take, replicate, keep_if, unwrap_or, ltb, leb, ◌==◌, if◌then◌else◌,
  Text, codes, is_digit,
}

-- `format!("{n:06}")`
unfoldable pub zero_padded : ℕ → Text
zero_padded n = replicate (6 - length (decimal n)) b'0' ++ decimal n

-- `str::parse::<u32>` on digits; the empty text is an error.
unfoldable pub parse_u32 : Text → Option ℕ
parse_u32 s = parse_nonempty (2 ^ 32 - 1) s

unfoldable pub normalize_pairing_code : Text → Text
normalize_pairing_code code =
    let digits = take 6 (keep_if is_digit code) in
    if length digits == 6 then digits else zero_padded (unwrap_or (parse_u32 digits) 0 % 1000000)

abbrev pub u32_max : ℕ
u32_max = 2 ^ 32 - 1

abbrev pub draw_limit : ℕ
draw_limit = u32_max - u32_max % 1000000

-- The loop over the numbers that `getrandom::fill` gives, little-endian words already read as
-- numbers. The result is the code and the draws that are left; `none` when the draws run out.
unfoldable pub secure_pairing_code : List ℕ → Option (Text × List ℕ)
secure_pairing_code [] = none
secure_pairing_code (value ∷ draws) =
    let again = secure_pairing_code draws in
    if ltb value draw_limit then some (zero_padded (value % 1000000), draws) else again

-- `slice.get(index).copied().unwrap_or_default()`
byte_at : List ℕ → ℕ → ℕ
byte_at [] i = 0
byte_at (b ∷ bs) zero = b
byte_at (b ∷ bs) (suc i) = byte_at bs i

diff_loop : ℕ → ℕ → ℕ → List ℕ → List ℕ → ℕ
unfolding byte_at
diff_loop zero index diff left right = diff
diff_loop (suc rounds) index diff left right =
    diff_loop rounds (index + 1) (bit_or diff (bit_xor (byte_at left index) (byte_at right index)))
      left right

unfoldable pub constant_time_eq : List ℕ → List ℕ → Bool
unfolding diff_loop
constant_time_eq left right =
    diff_loop (max (length left) (length right)) 0 (bit_xor (length left) (length right)) left right
    == 0

-- The UTF-8 bytes of one character.
encode_utf8 : ℕ → List ℕ
encode_utf8 c =
    if ltb c 0x80
    then c ∷ []
    else if ltb c 0x800
    then (0xc0 + c / 64) ∷ (0x80 + c % 64) ∷ []
    else if ltb c 0x10000
    then (0xe0 + c / 4096) ∷ (0x80 + c / 64 % 64) ∷ (0x80 + c % 64) ∷ []
    else (0xf0 + c / 262144) ∷ (0x80 + c / 4096 % 64) ∷ (0x80 + c / 64 % 64) ∷ (0x80 + c % 64) ∷ []

-- `str::as_bytes`
unfoldable pub as_bytes : Text → List ℕ
unfolding encode_utf8
as_bytes [] = []
as_bytes (c ∷ s) = encode_utf8 c ++ as_bytes s
