-- ===== src/Rooms/Bytes.antt =====
-- src/rooms.rs: the approximate size of a JSON value.
use tellm.Base.{ℕ, ◌+◌, str_len, if◌then◌else◌, saturating_add}
use tellm.Core.{
  Value, Values, Fields, null, bool, number, string, array, object, nil, cons, end, field,
}

mutual
  approx_bytes : Value → ℕ
  approx_bytes null = 4
  approx_bytes (bool b) = (if b then 1 else 0) + 4
  approx_bytes (number n) = str_len n
  approx_bytes (string s) = saturating_add (str_len s) 2
  approx_bytes (array vs) = approx_array vs 2
  approx_bytes (object fs) = approx_object fs 2

  -- the fold over an array, from `total` on
  approx_array : Values → ℕ → ℕ
  approx_array nil total = total
  approx_array (cons v vs) total =
      approx_array vs (saturating_add total (saturating_add (approx_bytes v) 1))

  -- the fold over an object, from `total` on
  approx_object : Fields → ℕ → ℕ
  approx_object end total = total
  approx_object (field k v fs) total = approx_object fs (
      saturating_add (saturating_add total (saturating_add (str_len k) 3))
        (saturating_add (approx_bytes v) 1))

pub approx_json_bytes : Value → ℕ
unfolding approx_bytes approx_array approx_object
approx_json_bytes v = approx_bytes v
