-- ===== src/Access/Code/Compare.antt =====
-- The comparison of pairing codes: it looks at every byte, and decides equality.
use Prim.Native.Nat.{bit_or, bit_xor}
use tellm.Base.{
  ℕ, zero, suc, ◌+◌, ◌≤◌, ◌<◌, max, ◌≡◌, refl, ap, sym, ◌∙◌, ◌↔◌, true, List, [], ◌∷◌, ◌++◌, length,
  All, arith, ==_iff, Text,
}
use native.Mathlib.Decide.{ℕ_discrete}
use tellm.Base.Bits.{bit_or_zero, bit_xor_zero, bit_xor_self}
use tellm.Access.Code.{byte_at, diff_loop, constant_time_eq, encode_utf8, as_bytes}

-- A loop that ends at 0 began at 0 and met equal bytes.
diff_loop_zero :
    (rounds index diff : ℕ) (l r : List ℕ)
    → diff_loop rounds index diff l r ≡ 0
    → (diff ≡ 0) × ((i : ℕ) → index ≤ i → i < index + rounds → byte_at l i ≡ byte_at r i)
unfolding diff_loop
diff_loop_zero zero index diff l r h = (h, λ i p q. absurd (omega arith))
diff_loop_zero (suc rounds) index diff l r h =
    let (folded, later) =
      diff_loop_zero rounds (index + 1) (bit_or diff (bit_xor (byte_at l index) (byte_at r index)))
        l r h in
    let (diff_zero, xor_zero) = bit_or_zero diff _ folded in
    let here = bit_xor_zero (byte_at l index) (byte_at r index) xor_zero in
    (
      diff_zero,
      λ i p q. elim (ℕ_discrete i index) [
        | yes e ↦ rw e here
        | no ne ↦ later i (omega arith) (omega arith)
      ],
    )

diff_loop_self : (rounds index : ℕ) (l : List ℕ) → diff_loop rounds index 0 l l ≡ 0
unfolding diff_loop
diff_loop_self zero index l = refl
diff_loop_self (suc rounds) index l = rw bit_xor_self (diff_loop_self rounds (index + 1) l)

-- Lists of one length with equal bytes are equal.
eq_of_bytes :
    (l r : List ℕ)
    → length l ≡ length r
    → ((i : ℕ) → i < length l → byte_at l i ≡ byte_at r i)
    → l ≡ r
unfolding byte_at
eq_of_bytes [] [] e h = refl
eq_of_bytes [] (b ∷ r) e h = absurd (omega arith)
eq_of_bytes (a ∷ l) [] e h = absurd (omega arith)
eq_of_bytes (a ∷ l) (b ∷ r) e h =
    cc (h 0 (omega arith), eq_of_bytes l r (omega arith) (λ i p. h (suc i) (omega arith)))

-- `constant_time_eq` accepts exactly equal byte strings, whatever their lengths.
pub constant_time_eq_iff : (l r : List ℕ) → (constant_time_eq l r ≡ true) ↔ (l ≡ r)
unfolding constant_time_eq
constant_time_eq_iff l r = (λ h. accepted h, λ e. rw e equal)
  where
    accepted : constant_time_eq l r ≡ true → l ≡ r
    accepted h =
        let (start, bytes) =
          diff_loop_zero (max (length l) (length r)) 0 (bit_xor (length l) (length r)) l r
            ((==_iff _ 0).0 h) in
        eq_of_bytes l r (bit_xor_zero _ _ start) (λ i p. bytes i (omega arith) (omega arith))

    equal : constant_time_eq r r ≡ true
    equal = rw (bit_xor_self, diff_loop_self)

abbrev pub IsAscii : Text → Type 0
IsAscii = All (λ c. c < 128)

encode_utf8_first :
    (c b : ℕ) (rest bs : List ℕ) → encode_utf8 c ++ rest ≡ b ∷ bs → b < 128 → (c ≡ b) × (rest ≡ bs)
unfolding encode_utf8
encode_utf8_first c b rest bs h p = ground arith

encode_utf8-ne-nil : (c : ℕ) (rest : List ℕ) → encode_utf8 c ++ rest ≡ [] → ⊥
unfolding encode_utf8
encode_utf8-ne-nil c rest h = ground arith

-- Only an ASCII text has ASCII bytes, and then the bytes are its characters.
pub as_bytes-ascii : (s t : Text) → IsAscii t → as_bytes s ≡ t → s ≡ t
unfolding as_bytes
as_bytes-ascii [] t a h = h
as_bytes-ascii (c ∷ s) [] a h = absurd (encode_utf8-ne-nil c (as_bytes s) h)
as_bytes-ascii (c ∷ s) (b ∷ t) (b_small, a) h =
    let (first, rest) = encode_utf8_first c b (as_bytes s) t h b_small in
    cc (first, as_bytes-ascii s t a rest)

pub as_bytes_self : (t : Text) → IsAscii t → as_bytes t ≡ t
unfolding as_bytes encode_utf8
as_bytes_self [] a = refl
as_bytes_self (c ∷ t) (small, a) = ground (arith, as_bytes_self t a)

-- Against an ASCII text, the comparison of bytes decides the equality of texts.
pub constant_time_eq-text :
    (expected submitted : Text)
    → IsAscii expected
    → (constant_time_eq (as_bytes expected) (as_bytes submitted) ≡ true) ↔ (submitted ≡ expected)
constant_time_eq-text expected submitted a = (
  λ h.
      as_bytes-ascii submitted expected a
        (sym ((constant_time_eq_iff _ _).0 h) ∙ as_bytes_self expected a),
  λ e. (constant_time_eq_iff _ _).1 (ap as_bytes (sym e)),
)
