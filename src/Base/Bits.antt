-- ===== src/Base/Bits.antt =====
-- When `|` and `^` of two unsigned integers are 0.
use Prim.Native.Nat.{
  ℕ, zero, suc, ◌/◌, ◌%◌, ◌≤◌, max, bit_or, bit_xor, digits, differ, bit_or-bitwise,
  bit_xor-bitwise,
}
use mathlib.Core.Path.{◌≡◌, refl, ◌∙◌, sym}
use native.Mathlib.Omega.{arith}
use native.Mathlib.Nat.{le_refl}

differ_zero : (x y : ℕ) → differ x y ≡ 0 → x ≡ y
differ_zero zero y h = omega arith
differ_zero (suc x) zero h = omega arith
differ_zero (suc x) (suc y) h = omega (arith, differ_zero x y h)

differ_self : (x : ℕ) → differ x x ≡ 0
differ_self zero = refl
differ_self (suc x) = differ_self x

or_digits_zero : (n a b : ℕ) → a ≤ n → digits (λ y. y) max n a b ≡ 0 → (a ≡ 0) × (b ≡ 0)
or_digits_zero zero a b p h = omega arith
or_digits_zero (suc n) zero b p h = omega arith
or_digits_zero (suc n) (suc a) b p h =
    omega (arith, or_digits_zero n (suc a / 2) (b / 2) (omega arith) (omega arith))

xor_digits_zero : (n a b : ℕ) → a ≤ n → digits (λ y. y) differ n a b ≡ 0 → a ≡ b
xor_digits_zero zero a b p h = omega arith
xor_digits_zero (suc n) zero b p h = omega arith
xor_digits_zero (suc n) (suc a) b p h = omega (
  arith,
  xor_digits_zero n (suc a / 2) (b / 2) (omega arith) (omega arith),
  differ_zero (suc a % 2) (b % 2) (omega arith),
)

xor_digits_self : (n a : ℕ) → a ≤ n → digits (λ y. y) differ n a a ≡ 0
xor_digits_self zero a p = omega arith
xor_digits_self (suc n) zero p = refl
xor_digits_self (suc n) (suc a) p =
    omega (arith, xor_digits_self n (suc a / 2) (omega arith), differ_self (suc a % 2))

pub bit_or_zero : (a b : ℕ) → bit_or a b ≡ 0 → (a ≡ 0) × (b ≡ 0)
bit_or_zero a b h = or_digits_zero a a b (le_refl a) (sym (bit_or-bitwise a b) ∙ h)

pub bit_xor_zero : (a b : ℕ) → bit_xor a b ≡ 0 → a ≡ b
bit_xor_zero a b h = xor_digits_zero a a b (le_refl a) (sym (bit_xor-bitwise a b) ∙ h)

pub bit_xor_self : (a : ℕ) → bit_xor a a ≡ 0
bit_xor_self a = bit_xor-bitwise a a ∙ xor_digits_self a a (le_refl a)
