-- ===== src/Access/Code/Draw.antt =====
-- The random choice of a pairing code is even: each code stands for as many draws as any other, and
-- all other draws are thrown away.
use tellm.Base.{ℕ, ◌+◌, ◌*◌, ◌%◌, ◌≤◌, ◌<◌, ◌≡◌, some, List, ◌∷◌, arith}
use tellm.Access.Code.{zero_padded, secure_pairing_code}

-- The draws `k * 1000000 + c` with `k` below 4294 give the number `c` below 1000000 as the code, at
-- once and with the later draws kept; a draw from 4294000000 on is thrown away and the loop goes on
-- with the next one.
pub secure_pairing_code-even :
    (rest : List ℕ) (c k v : ℕ)
    → c < 1000000
    → k < 4294
    → 4294000000 ≤ v
    → (secure_pairing_code ((k * 1000000 + c) ∷ rest) ≡ some (zero_padded c, rest))
      × (secure_pairing_code (v ∷ rest) ≡ secure_pairing_code rest)
unfolding secure_pairing_code
secure_pairing_code-even rest c k v hc hk hv =
    let same : (k * 1000000 + c) % 1000000 ≡ c = omega arith in
    (rw same (ground arith), ground arith)
