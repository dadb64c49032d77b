-- ===== src/Base/Words.antt =====
-- Unsigned machine integers as native numbers, with the saturating and wrapping operations written
-- out. An `i64` that the code uses only as an id is its 64-bit pattern.
use Prim.Native.Nat.{ℕ, ◌+◌, ◌-◌, ◌%◌, ◌^◌}
use tellm.Base.Tests.{ltb, if◌then◌else◌}

abbrev pub u64_max : ℕ
u64_max = 2 ^ 64 - 1

-- `u64::saturating_add`; `usize` has 64 bits too.
abbrev pub saturating_add : ℕ → ℕ → ℕ
saturating_add a b = if ltb u64_max (a + b) then u64_max else a + b

-- `u64::wrapping_add`
abbrev pub wrapping_add : ℕ → ℕ → ℕ
wrapping_add a b = (a + b) % 2 ^ 64

-- `u64::saturating_sub` is subtraction on ℕ.
abbrev pub saturating_sub : ℕ → ℕ → ℕ
saturating_sub a b = a - b

-- The two's complement pattern of an `i64`.
abbrev pub I64 : Type 0
I64 = ℕ
