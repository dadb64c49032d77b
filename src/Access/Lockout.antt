-- ===== src/Access/Lockout.antt =====
-- The rate limit on pairing attempts.
use tellm.Base.{
  ℕ, ◌+◌, ◌-◌, ◌≤◌, ◌<◌, ◌≡◌, refl, sym, ◌∙◌, ◌⊎◌, inl, inr, false, Option, none, some, List, [],
  ◌∷◌, All, arith, Text, I64, if◌then◌else◌, Bool-cases, Option-cases, eq_refl, u64_max,
}
use tellm.Base.IdMap
use tellm.Base.IdMap.{get-insert, get-remove}
use tellm.Base.IdSet
use tellm.Base.IdSet.{contains-insert}
use tellm.Access.Code.{constant_time_eq, as_bytes}
use tellm.Access.{
  AccessControl, AttemptState, AccessTime, PairingAttempt, paired, rejected, ensure_room_code,
  locked_until, lock_of, drop_expired_lock, record_failed_attempt, attempt_entry, count_failure,
  attempt_pair, compare_code, approve,
}
use tellm.Access.Invariant.{attempts-ensure_room_code}
use tellm.Access.Pairing.{allowed-ensure_room_code}

-- The answers to a chat's attempts, one after the other.
pub answers : I64 → List (Text × AccessTime) → AccessControl → List PairingAttempt
answers chat_id [] a = []
answers chat_id ((code, now) ∷ rest) a =
    let (answer, a') = attempt_pair chat_id code now a in answer ∷ answers chat_id rest a'

abbrev pub rejections_of : PairingAttempt → ℕ
rejections_of (rejected _) = 1
rejections_of _ = 0

abbrev pub rejections : List PairingAttempt → ℕ
rejections [] = 0
rejections (r ∷ rs) = rejections_of r + rejections rs

-- The rejections that an entry still allows in its window.
abbrev entry_budget : Option AttemptState → ℕ
entry_budget none = 4
entry_budget (some e) = elim e.locked_until [ none ↦ 4 - e.count | some _ ↦ 0 ]

abbrev budget : I64 → AccessControl → ℕ
budget chat_id a =
    if IdSet.contains chat_id a.allowed_chat_ids
    then 0
    else entry_budget (IdMap.get chat_id a.attempts)

-- The entry's window began at `t` or within 300 seconds from it, and a lock lasts over all of them.
abbrev InWindow : ℕ → Option AttemptState → Type 0
InWindow t none = Unit
InWindow t (some e) =
    (t ≤ e.window_started_at)
    × (((e.locked_until ≡ none) × (e.count < 5))
        ⊎ ((until : AccessTime) × (e.locked_until ≡ some until) × (t + 300 ≤ until)))

module _ (t now : ℕ) (fits : t + 600 ≤ u64_max) (from : t ≤ now) (to : now < t + 300) where
  failure_spends :
      (e : Option AttemptState)
      → InWindow t e
      → lock_of e now ≡ none
      → (rejections_of (count_failure (attempt_entry e now) now).0
            + entry_budget (some (count_failure (attempt_entry e now) now).1)
          ≤ entry_budget e)
        × InWindow t (some (count_failure (attempt_entry e now) now).1)
  unfolding count_failure attempt_entry lock_of
  failure_spends none w u = ground arith
  failure_spends (some e) w u = ground arith

  unlocked_keeps :
      (chat_id : I64) (a : AccessControl)
      → InWindow t (IdMap.get chat_id a.attempts)
      → (locked_until chat_id now a).1 ≡ a
  unfolding locked_until drop_expired_lock
  unlocked_keeps chat_id a w = ground arith

  -- What one attempt does to the budget and the entry, from `a` to `a'`.
  abbrev Spends : I64 → AccessControl → PairingAttempt × AccessControl → Type 0
  Spends chat_id a r =
      (rejections_of r.0 + budget chat_id r.1 ≤ budget chat_id a)
      × InWindow t (IdMap.get chat_id r.1.attempts)

  approve-Spends :
      (chat_id : I64) (a b : AccessControl) → Spends chat_id a (paired, approve chat_id b)
  unfolding approve
  approve-Spends chat_id a b = ground (
    arith,
    contains-insert chat_id chat_id b.allowed_chat_ids,
    get-remove chat_id chat_id b.attempts,
  )

  failed-Spends :
      (chat_id : I64) (a : AccessControl)
      → IdSet.contains chat_id a.allowed_chat_ids ≡ false
      → InWindow t (IdMap.get chat_id a.attempts)
      → lock_of (IdMap.get chat_id a.attempts) now ≡ none
      → Spends chat_id a (record_failed_attempt chat_id now a)
  unfolding record_failed_attempt
  failed-Spends chat_id a strange w u =
      rw (get-insert, eq_refl, strange) (failure_spends (IdMap.get chat_id a.attempts) w u)

  ensured_failed-Spends :
      (chat_id : I64) (a : AccessControl)
      → IdSet.contains chat_id a.allowed_chat_ids ≡ false
      → InWindow t (IdMap.get chat_id a.attempts)
      → lock_of (IdMap.get chat_id a.attempts) now ≡ none
      → Spends chat_id a (record_failed_attempt chat_id now (ensure_room_code chat_id now a).1)
  ensured_failed-Spends chat_id a strange w u =
      let same_attempts = attempts-ensure_room_code chat_id now a in
      let same_allowed = allowed-ensure_room_code chat_id now a in
      let spent =
        failed-Spends chat_id (ensure_room_code chat_id now a).1 (rw same_allowed strange)
          (rw same_attempts w) (rw same_attempts u) in
      let same_budget : budget chat_id (ensure_room_code chat_id now a).1 ≡ budget chat_id a =
        rw (same_attempts, same_allowed) in
      (omega (arith, spent.0, same_budget), spent.1)

  compare-Spends :
      (chat_id : I64) (code : Text) (a : AccessControl)
      → IdSet.contains chat_id a.allowed_chat_ids ≡ false
      → InWindow t (IdMap.get chat_id a.attempts)
      → lock_of (IdMap.get chat_id a.attempts) now ≡ none
      → Spends chat_id a (compare_code chat_id code now a)
  unfolding compare_code
  compare-Spends chat_id code a strange w u =
      let ((expected, newly_issued), a') = ensure_room_code chat_id now a in
      elim (Bool-cases (constant_time_eq (as_bytes expected) (as_bytes code))) [
        | inl right ↦ rw right (approve-Spends chat_id a a')
        | inr wrong ↦ rw wrong (ensured_failed-Spends chat_id a strange w u)
      ]

  lock-locked_until :
      (chat_id : I64) (a : AccessControl)
      → (locked_until chat_id now a).0 ≡ lock_of (IdMap.get chat_id a.attempts) now
  unfolding locked_until
  lock-locked_until chat_id a = refl

  attempt-Spends :
      (chat_id : I64) (code : Text) (a : AccessControl)
      → InWindow t (IdMap.get chat_id a.attempts)
      → Spends chat_id a (attempt_pair chat_id code now a)
  unfolding attempt_pair
  attempt-Spends chat_id code a w =
      let kept = unlocked_keeps chat_id a w in
      elim (Bool-cases (IdSet.contains chat_id a.allowed_chat_ids)) [
        | inl known ↦ rw (known, known) (omega arith, w)
        | inr strange ↦ elim (Option-cases (locked_until chat_id now a).0) [
          | inl open_entry ↦
              rw (strange, open_entry, kept)
                (rw strange at (
                  compare-Spends chat_id code a strange w
                    (sym (lock-locked_until chat_id a) ∙ open_entry)))
          | inr (until, locked) ↦ rw (strange, locked, kept) (ground arith, w)
        ]
      ]

answers_bound :
    (t : ℕ) (chat_id : I64) (tries : List (Text × AccessTime)) (a : AccessControl)
    → t + 600 ≤ u64_max
    → All (λ x. (t ≤ x.1) × (x.1 < t + 300)) tries
    → InWindow t (IdMap.get chat_id a.attempts)
    → rejections (answers chat_id tries a) ≤ budget chat_id a
unfolding answers
answers_bound t chat_id [] a fits h w = omega arith
answers_bound t chat_id ((code, now) ∷ rest) a fits ((from, to), h) w =
    let (spent, w') = attempt-Spends t now fits from to chat_id code a w in
    let later = answers_bound t chat_id rest (attempt_pair chat_id code now a).1 fits h w' in
    omega arith

-- Whatever a chat without a failure entry submits within 300 seconds, in whatever order and with
-- whatever codes, at most four of its attempts are answered with a rejection (times stay clear of
-- the end of `u64`).
pub rejections-answers_le :
    (t : ℕ) (chat_id : I64) (tries : List (Text × AccessTime)) (a : AccessControl)
    → t + 600 ≤ u64_max
    → IdMap.get chat_id a.attempts ≡ none
    → All (λ x. (t ≤ x.1) × (x.1 < t + 300)) tries
    → rejections (answers chat_id tries a) ≤ 4
rejections-answers_le t chat_id tries a fits new h =
    let bound = answers_bound t chat_id tries a fits h (rw new tt) in
    let start : budget chat_id a ≤ 4 = rw new (ground arith) in omega (arith, bound, start)
