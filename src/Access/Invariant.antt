-- ===== src/Access/Invariant.antt =====
-- The well-formed states of `AccessControl`: every operation keeps them.
use tellm.Base.{
  ℕ, ◌<◌, ◌≡◌, ◌⊎◌, inl, inr, Option, none, some, arith, Text, I64, if◌then◌else◌, ltb, Bool-cases,
  Option-cases, ◌==◌,
}
use tellm.Base.IdMap
use tellm.Base.IdMap.{IdMap, map_laws, get-insert, get-remove}
use tellm.Base.IdSet
use tellm.Access.Code.{constant_time_eq, as_bytes}
use tellm.Access.Code.SixDigits.{IsCode, normalize_pairing_code-IsCode}
use tellm.Access.{
  AccessControl, AccessConfig, PairingState, AttemptState, AccessTime, max_pairing_attempts,
  new_with_generator, ensure_room_code, arm_room, check_chat, deny_chat, locked_until,
  record_failed_attempt, attempt_pair, compare_code, approve, issue, attempt_entry, needs_issue,
  drop_expired_lock, lock_of, running_lock, count_failure,
}

-- A lock stands exactly at the fifth failure, and no count goes beyond it.
abbrev pub IsConsistent : Option AttemptState → Type 0
IsConsistent none = Unit
IsConsistent (some attempt) =
    ((attempt.locked_until ≡ none) × (attempt.count < max_pairing_attempts))
    ⊎ ((until : AccessTime) × (attempt.locked_until ≡ some until)
        × (attempt.count ≡ max_pairing_attempts))

abbrev pub HasCode : Option PairingState → Type 0
HasCode none = Unit
HasCode (some pairing) = IsCode pairing.code

pub record IsWellFormed (a : AccessControl) : Type 0 where
  pub codes : (chat_id : I64) → HasCode (IdMap.get chat_id a.pending)
  pub counts : (chat_id : I64) → IsConsistent (IdMap.get chat_id a.attempts)

-- A map of one more entry, or one less, keeps what holds of every entry.
module _ {V : Type 0} (P : Option V → Type 0) where
  pub get-insert-Keeps :
      (k j : I64) (v : V) (m : IdMap V)
      → P (some v)
      → P (IdMap.get j m)
      → P (IdMap.get j (IdMap.insert k v m))
  get-insert-Keeps k j v m hv hm = elim (Bool-cases (k == j)) [
    | inl same ↦ rw (get-insert, same) hv
    | inr other ↦ rw (get-insert, other) hm
  ]

  pub get-remove-Keeps :
      (k j : I64) (m : IdMap V) → P none → P (IdMap.get j m) → P (IdMap.get j (IdMap.remove k m))
  get-remove-Keeps k j m hn hm = elim (Bool-cases (k == j)) [
    | inl same ↦ rw (get-remove, same) hn
    | inr other ↦ rw (get-remove, other) hm
  ]

pub new-IsWellFormed : (c : AccessConfig) (g : ℕ → Text) → IsWellFormed (new_with_generator c g)
unfolding new_with_generator IdMap.get
new-IsWellFormed c g = record { codes = λ j. tt; counts = λ j. tt }

issue-IsWellFormed :
    (chat_id : I64) (now : AccessTime) (a : AccessControl)
    → IsWellFormed a
    → IsWellFormed (issue chat_id now a)
unfolding issue
issue-IsWellFormed chat_id now a v = record {
  codes = λ j.
      get-insert-Keeps HasCode chat_id j _ a.pending
        (normalize_pairing_code-IsCode (a.code_generator a.generated)) (v.codes j);
  counts = v.counts;
}

pub ensure_room_code-IsWellFormed :
    (chat_id : I64) (now : AccessTime) (a : AccessControl)
    → IsWellFormed a
    → IsWellFormed (ensure_room_code chat_id now a).1
unfolding ensure_room_code
ensure_room_code-IsWellFormed chat_id now a v =
    elim (Bool-cases (needs_issue (IdMap.get chat_id a.pending) now)) [
      | inl stale ↦ rw stale (issue-IsWellFormed chat_id now a v)
      | inr fresh ↦ rw fresh v
    ]

pub arm_room-IsWellFormed :
    (chat_id : I64) (now : AccessTime) (a : AccessControl)
    → IsWellFormed a
    → IsWellFormed (arm_room chat_id now a).1
unfolding arm_room
arm_room-IsWellFormed chat_id now a v =
    elim (Bool-cases (IdSet.contains chat_id a.allowed_chat_ids)) [
      | inl known ↦ rw known v
      | inr strange ↦ rw strange (ensure_room_code-IsWellFormed chat_id now a v)
    ]

pub check_chat-IsWellFormed :
    (chat_id : I64) (a : AccessControl) → IsWellFormed a → IsWellFormed (check_chat chat_id a).1
unfolding check_chat
check_chat-IsWellFormed chat_id a v =
    elim (Bool-cases (IdSet.contains chat_id a.allowed_chat_ids)) [
      | inl known ↦ rw known v
      | inr strange ↦ rw strange (record { codes = v.codes; counts = v.counts })
    ]

pub deny_chat-IsWellFormed :
    (chat_id : I64) (a : AccessControl) → IsWellFormed a → IsWellFormed (deny_chat chat_id a)
unfolding deny_chat
deny_chat-IsWellFormed chat_id a v = record {
  codes = λ j. get-remove-Keeps HasCode chat_id j a.pending tt (v.codes j);
  counts = λ j. get-remove-Keeps IsConsistent chat_id j a.attempts tt (v.counts j);
}

approve-IsWellFormed :
    (chat_id : I64) (a : AccessControl) → IsWellFormed a → IsWellFormed (approve chat_id a)
unfolding approve
approve-IsWellFormed chat_id a v = record {
  codes = λ j. get-remove-Keeps HasCode chat_id j a.pending tt (v.codes j);
  counts = λ j. get-remove-Keeps IsConsistent chat_id j a.attempts tt (v.counts j);
}

pub locked_until-IsWellFormed :
    (chat_id : I64) (now : AccessTime) (a : AccessControl)
    → IsWellFormed a
    → IsWellFormed (locked_until chat_id now a).1
unfolding locked_until drop_expired_lock
locked_until-IsWellFormed chat_id now a v = step (IdMap.get chat_id a.attempts)
  where
    dropped : IsWellFormed (record a { attempts = IdMap.remove chat_id a.attempts })
    dropped = record {
      codes = v.codes;
      counts = λ j. get-remove-Keeps IsConsistent chat_id j a.attempts tt (v.counts j);
    }

    at_lock :
        (o : Option AccessTime)
        → IsWellFormed (elim o [
          | none ↦ a
          | some until ↦
              if ltb now until then a else record a { attempts = IdMap.remove chat_id a.attempts }
        ])
    at_lock none = v
    at_lock (some until) = elim (Bool-cases (ltb now until)) [
      | inl running ↦ rw running v
      | inr over ↦ rw over dropped
    ]

    step : (e : Option AttemptState) → IsWellFormed (drop_expired_lock e chat_id now a)
    step none = v
    step (some attempt) = at_lock attempt.locked_until

-- The state of an entry that no lock closes: below five failures, and no lock.
abbrev pub IsOpen : Option AttemptState → Type 0
IsOpen none = Unit
IsOpen (some attempt) = (attempt.locked_until ≡ none) × (attempt.count < max_pairing_attempts)

-- After `locked_until` has found no running lock, the entry that is left is open.
pub locked_until-IsOpen :
    (chat_id : I64) (now : AccessTime) (a : AccessControl)
    → IsConsistent (IdMap.get chat_id a.attempts)
    → (locked_until chat_id now a).0 ≡ none
    → IsOpen (IdMap.get chat_id (locked_until chat_id now a).1.attempts)
unfolding locked_until lock_of running_lock drop_expired_lock
locked_until-IsOpen chat_id now a c h = ground (arith, get-remove chat_id chat_id a.attempts)

-- One more failure on an open entry leaves a consistent one.
pub count_failure-IsConsistent :
    (e : Option AttemptState) (now : AccessTime)
    → IsOpen e
    → IsConsistent (some (count_failure (attempt_entry e now) now).1)
unfolding count_failure attempt_entry
count_failure-IsConsistent none now h = ground arith
count_failure-IsConsistent (some attempt) now h = ground arith

failed-IsWellFormed :
    (chat_id : I64) (now : AccessTime) (a : AccessControl)
    → IsWellFormed a
    → IsOpen (IdMap.get chat_id a.attempts)
    → IsWellFormed (record_failed_attempt chat_id now a).1
unfolding record_failed_attempt
failed-IsWellFormed chat_id now a v h = record {
  codes = v.codes;
  counts = λ j.
      get-insert-Keeps IsConsistent chat_id j _ a.attempts
        (count_failure-IsConsistent (IdMap.get chat_id a.attempts) now h) (v.counts j);
}

-- Issuing a code leaves the failure counts alone.
pub attempts-ensure_room_code :
    (chat_id : I64) (now : AccessTime) (a : AccessControl)
    → (ensure_room_code chat_id now a).1.attempts ≡ a.attempts
unfolding ensure_room_code
attempts-ensure_room_code chat_id now a = ground arith

compare_code-IsWellFormed :
    (chat_id : I64) (code : Text) (now : AccessTime) (a : AccessControl)
    → IsWellFormed a
    → IsOpen (IdMap.get chat_id a.attempts)
    → IsWellFormed (compare_code chat_id code now a).1
unfolding compare_code
compare_code-IsWellFormed chat_id code now a v h =
    let ((expected, newly_issued), a') = ensure_room_code chat_id now a in
    let v' : IsWellFormed a' = ensure_room_code-IsWellFormed chat_id now a v in
    elim (Bool-cases (constant_time_eq (as_bytes expected) (as_bytes code))) [
      | inl right ↦ rw right (approve-IsWellFormed chat_id a' v')
      | inr wrong ↦
          rw wrong
            (failed-IsWellFormed chat_id now a' v' (rw (attempts-ensure_room_code chat_id now a) h))
    ]

-- A pairing attempt keeps the state well-formed, whatever it answers.
pub attempt_pair-IsWellFormed :
    (chat_id : I64) (code : Text) (now : AccessTime) (a : AccessControl)
    → IsWellFormed a
    → IsWellFormed (attempt_pair chat_id code now a).1
unfolding attempt_pair
attempt_pair-IsWellFormed chat_id code now a v =
    elim (Bool-cases (IdSet.contains chat_id a.allowed_chat_ids)) [
      | inl known ↦ rw known v
      | inr strange ↦ rw strange (elim (Option-cases (locked_until chat_id now a).0) [
        | inl unlocked ↦ rw unlocked (
            compare_code-IsWellFormed chat_id code now (locked_until chat_id now a).1
              (locked_until-IsWellFormed chat_id now a v)
              (locked_until-IsOpen chat_id now a (v.counts chat_id) unlocked))
        | inr (until, locked) ↦ rw locked (locked_until-IsWellFormed chat_id now a v)
      ])
    ]
