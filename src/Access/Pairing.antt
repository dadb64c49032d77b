-- ===== src/Access/Pairing.antt =====
-- What a pairing attempt answers, and whom it lets in.
use tellm.Base.{
  ◌<◌, ◌≡◌, ◌≢◌, ◌&&◌, ◌↔◌, refl, inl, inr, Bool, true, false, ◌||◌, Option, none, some, [], ◌∷◌,
  arith, Text, I64, if◌then◌else◌, ltb, Bool-cases, Option-cases, ◌==◌, eq_refl, All,
}
use tellm.Base.IdMap
use tellm.Base.IdMap.{map_laws, get-insert, get-remove}
use tellm.Base.IdSet
use tellm.Base.IdSet.{set_laws, contains-insert}
use tellm.Access.Code.{normalize_pairing_code, constant_time_eq, as_bytes}
use tellm.Access.Code.Compare.{IsAscii, constant_time_eq-text}
use tellm.Access.Code.SixDigits.{IsCode, IsDigit, normalize_pairing_code-IsCode}
use tellm.Access.{
  AccessControl, PairingState, AttemptState, AccessTime, PairingAttempt, paired, ensure_room_code,
  needs_issue, issue, current_code, locked_until, lock_of, drop_expired_lock, record_failed_attempt,
  attempt_pair, compare_code,
}
use tellm.Access.Invariant.{IsWellFormed, HasCode, locked_until-IsWellFormed}

-- Whether an answer is `Paired`.
abbrev pub is_paired : PairingAttempt → Bool
is_paired paired = true
is_paired _ = false

digits-IsAscii : (t : Text) → All IsDigit t → IsAscii t
digits-IsAscii [] h = tt
digits-IsAscii (c ∷ t) (d, h) = (omega arith, digits-IsAscii t h)

-- An armed code until it expires, and the next one from then on or if there is none.
abbrev pub code_at : Option PairingState → AccessTime → Text → Text
code_at none now next_code = next_code
code_at (some p) now next_code = if ltb now p.expires_at then p.code else next_code

-- The code that a room's next attempt at `now` is compared with: the armed one while it is valid,
-- or else the normal form of the generator's next text.
abbrev pub code_in_force : I64 → AccessTime → AccessControl → Text
code_in_force chat_id now a =
    code_at (IdMap.get chat_id a.pending) now
      (normalize_pairing_code (a.code_generator a.generated))

ensured_code :
    (chat_id : I64) (now : AccessTime) (a : AccessControl)
    → (ensure_room_code chat_id now a).0.0 ≡ code_in_force chat_id now a
unfolding ensure_room_code
ensured_code chat_id now a = elim (Bool-cases (needs_issue (IdMap.get chat_id a.pending) now)) [
  | inl stale ↦
      rw stale (unfold issue current_code needs_issue in simp (get-insert, eq_refl) (ground arith))
  | inr fresh ↦ rw fresh (unfold current_code needs_issue in ground arith)
]

-- A lock on the chat's failures that is still running.
abbrev pub IsLocked : I64 → AccessTime → AccessControl → Type 0
IsLocked chat_id now a =
    (e : AttemptState) × (until : AccessTime) × (IdMap.get chat_id a.attempts ≡ some e)
    × (e.locked_until ≡ some until)
    × (now < until)

-- The lock that an entry shows, and why.
lock_of-eq-some :
    (e : Option AttemptState) (now until : AccessTime)
    → lock_of e now ≡ some until
    → (attempt : AttemptState) × (e ≡ some attempt)
      × (attempt.locked_until ≡ some until)
      × (now < until)
unfolding lock_of
lock_of-eq-some none now until h = cc
lock_of-eq-some (some attempt) now until h = (attempt, refl, ground arith, ground arith)

lock_of-eq-none :
    (attempt : AttemptState) (now until : AccessTime)
    → attempt.locked_until ≡ some until
    → now < until
    → lock_of (some attempt) now ≡ some until
unfolding lock_of
lock_of-eq-none attempt now until h p = ground arith

pub unlocked_iff :
    (chat_id : I64) (now : AccessTime) (a : AccessControl)
    → ((locked_until chat_id now a).0 ≡ none) ↔ (¬ IsLocked chat_id now a)
unfolding locked_until
unlocked_iff chat_id now a = (
  λ h (e, until, found, lock, running). ground (arith, lock_of-eq-none e now until lock running),
  λ h. elim (Option-cases (lock_of (IdMap.get chat_id a.attempts) now)) [
    | inl unlocked ↦ unlocked
    | inr (until, locked) ↦
        let (e, found, lock, running) =
          lock_of-eq-some (IdMap.get chat_id a.attempts) now until locked in
        absurd (h (e, until, found, lock, running))
  ],
)

-- The look at the lock leaves the armed codes and the generator alone.
same_code :
    (chat_id : I64) (now : AccessTime) (a : AccessControl)
    → code_in_force chat_id now (locked_until chat_id now a).1 ≡ code_in_force chat_id now a
unfolding locked_until drop_expired_lock
same_code chat_id now a = ground arith

code_at-IsCode :
    (o : Option PairingState) (now : AccessTime) (next_code : Text)
    → HasCode o
    → IsCode next_code
    → IsCode (code_at o now next_code)
code_at-IsCode none now next_code h n = n
code_at-IsCode (some p) now next_code h n = elim (Bool-cases (ltb now p.expires_at)) [
  | inl valid ↦ rw valid h
  | inr over ↦ rw over n
]

code_in_force-IsAscii :
    (chat_id : I64) (now : AccessTime) (a : AccessControl)
    → IsWellFormed a
    → IsAscii (code_in_force chat_id now a)
code_in_force-IsAscii chat_id now a v =
    digits-IsAscii _
      (code_at-IsCode (IdMap.get chat_id a.pending) now _ (v.codes chat_id)
        (normalize_pairing_code-IsCode (a.code_generator a.generated))).1

failed-ne-paired :
    (chat_id : I64) (now : AccessTime) (a : AccessControl)
    → (record_failed_attempt chat_id now a).0 ≢ paired
unfolding record_failed_attempt
failed-ne-paired chat_id now a = ground arith

compare_code-paired :
    (chat_id : I64) (code : Text) (now : AccessTime) (a : AccessControl)
    → IsWellFormed a
    → ((compare_code chat_id code now a).0 ≡ paired) ↔ (code ≡ code_in_force chat_id now a)
unfolding compare_code
compare_code-paired chat_id code now a v =
    let expected = (ensure_room_code chat_id now a).0.0 in
    let same : (constant_time_eq (as_bytes expected) (as_bytes code) ≡ true) ↔ (code ≡ expected) =
      constant_time_eq-text expected code
        (rw (ensured_code chat_id now a) (code_in_force-IsAscii chat_id now a v)) in
    rw (← ensured_code chat_id now a)
      (elim (Bool-cases (constant_time_eq (as_bytes expected) (as_bytes code))) [
        | inl right ↦ rw right (λ _. same.0 right, λ _. refl)
        | inr wrong ↦ rw wrong (
          λ h. absurd (failed-ne-paired chat_id now (ensure_room_code chat_id now a).1 h),
          λ e. cc (same.1 e),
        )
      ])

-- In a well-formed state, an attempt of a chat pairs exactly when the chat is not allowed already,
-- no lock of its failures is running, and the submitted text is the code in force for that chat at that time.
pub attempt_pair-paired_iff :
    (chat_id : I64) (code : Text) (now : AccessTime) (a : AccessControl)
    → IsWellFormed a
    → ((attempt_pair chat_id code now a).0 ≡ paired) ↔ (
        (IdSet.contains chat_id a.allowed_chat_ids ≡ false)
        × (¬ IsLocked chat_id now a)
        × (code ≡ code_in_force chat_id now a))
unfolding attempt_pair
attempt_pair-paired_iff chat_id code now a v =
    elim (Bool-cases (IdSet.contains chat_id a.allowed_chat_ids)) [
      | inl known ↦ rw known (λ h. cc, λ h. cc)
      | inr strange ↦ rw strange (elim (Option-cases (locked_until chat_id now a).0) [
        | inl unlocked ↦
            rw unlocked (λ h. (refl, none_locked unlocked, compared.0 h), λ h. compared.1 h.2)
        | inr (until, locked) ↦
            rw locked (λ h. cc, λ h. cc (locked, (unlocked_iff chat_id now a).1 h.1))
      ])
    ]
  where
    none_locked : (locked_until chat_id now a).0 ≡ none → ¬ IsLocked chat_id now a
    none_locked = (unlocked_iff chat_id now a).0

    compared :
        ((compare_code chat_id code now (locked_until chat_id now a).1).0 ≡ paired)
        ↔ (code ≡ code_in_force chat_id now a)
    compared = rw (same_code chat_id now a) at (
        compare_code-paired chat_id code now (locked_until chat_id now a).1
          (locked_until-IsWellFormed chat_id now a v))

allowed-locked_until :
    (chat_id : I64) (now : AccessTime) (a : AccessControl)
    → (locked_until chat_id now a).1.allowed_chat_ids ≡ a.allowed_chat_ids
unfolding locked_until drop_expired_lock
allowed-locked_until chat_id now a = ground arith

pub allowed-ensure_room_code :
    (chat_id : I64) (now : AccessTime) (a : AccessControl)
    → (ensure_room_code chat_id now a).1.allowed_chat_ids ≡ a.allowed_chat_ids
unfolding ensure_room_code
allowed-ensure_room_code chat_id now a = ground arith

is_paired-failed :
    (chat_id : I64) (now : AccessTime) (a : AccessControl)
    → is_paired (record_failed_attempt chat_id now a).0 ≡ false
unfolding record_failed_attempt
is_paired-failed chat_id now a = ground arith

pub allowed-failed :
    (chat_id : I64) (now : AccessTime) (a : AccessControl)
    → (record_failed_attempt chat_id now a).1.allowed_chat_ids ≡ a.allowed_chat_ids
unfolding record_failed_attempt
allowed-failed chat_id now a = refl

allowed-compare_code :
    (chat_id j : I64) (code : Text) (now : AccessTime) (a : AccessControl)
    → IdSet.contains j (compare_code chat_id code now a).1.allowed_chat_ids ≡ (
        IdSet.contains j a.allowed_chat_ids
        || (chat_id == j && is_paired (compare_code chat_id code now a).0))
unfolding compare_code
allowed-compare_code chat_id j code now a =
    let ((expected, newly_issued), a') = ensure_room_code chat_id now a in
    ground (
      arith,
      allowed-ensure_room_code chat_id now a,
      allowed-failed chat_id now a',
      is_paired-failed chat_id now a',
      contains-insert chat_id j a.allowed_chat_ids,
    )

-- Whether a chat is allowed after an attempt: nothing changes for another chat, and the chat itself
-- is allowed exactly when it was already or the attempt has paired it.
pub allowed-attempt_pair :
    (chat_id j : I64) (code : Text) (now : AccessTime) (a : AccessControl)
    → IdSet.contains j (attempt_pair chat_id code now a).1.allowed_chat_ids ≡ (
        IdSet.contains j a.allowed_chat_ids
        || (chat_id == j && is_paired (attempt_pair chat_id code now a).0))
unfolding attempt_pair
allowed-attempt_pair chat_id j code now a = ground (
  arith,
  allowed-locked_until chat_id now a,
  allowed-compare_code chat_id j code now (locked_until chat_id now a).1,
)
