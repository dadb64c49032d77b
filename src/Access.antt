-- ===== src/Access.antt =====
-- src/access.rs: which chats and users the bot answers, and the pairing protocol. Each method takes
-- the state of `AccessControl` and returns its result beside the new state.
pub mod Code
mod State
pub mod Invariant
pub mod Pairing
pub mod Histories
pub mod Lockout
pub mod Membership
pub mod Startup
pub mod Live
mod Examples
pub use State.*
use tellm.Base.{
  ℕ, ◌+◌, ◌-◌, Bool, true, false, not, ◌&&◌, Option, none, some, List, [], ◌∷◌, length, is_some,
  ltb, leb, ◌==◌, if◌then◌else◌, saturating_add, saturating_sub, I64, Text,
}
use tellm.Base.IdMap
use tellm.Base.IdMap.{IdMap, map_option}
use tellm.Base.IdSet
use tellm.Base.IdSet.{IdSet}
use tellm.Access.Code.{normalize_pairing_code, constant_time_eq, as_bytes}

pub new_with_generator : AccessConfig → (ℕ → Text) → AccessControl
unfolding effective_allowed
new_with_generator config code_generator = record {
  allowed_chat_ids = effective_allowed config;
  owner_user_ids = config.owner_user_ids;
  pending = [];
  attempts = [];
  hinted_unknown_chats = [];
  code_generator = code_generator;
  generated = 0;
}

pub startup_notice : AccessControl → StartupNotice
startup_notice a = elim a.allowed_chat_ids [
  | [] ↦ pairing_mode
  | id ∷ ids ↦ restricted (length (id ∷ ids))
]

unfoldable pub is_chat_allowed : I64 → AccessControl → Bool
is_chat_allowed chat_id a = IdSet.contains chat_id a.allowed_chat_ids

needs_issue : Option PairingState → AccessTime → Bool
needs_issue none now = true
needs_issue (some pairing) now = leb pairing.expires_at now

issue : I64 → AccessTime → AccessControl → AccessControl
issue chat_id now a = record a {
  pending =
      IdMap.insert chat_id
        (record {
          code = normalize_pairing_code (a.code_generator a.generated);
          expires_at = saturating_add now pairing_code_ttl;
        })
        a.pending;
  generated = a.generated + 1;
}

-- `none` is the `expect` that cannot fail, since the code was just ensured.
current_code : Option PairingState → Text
current_code none = []
current_code (some pairing) = pairing.code

unfoldable pub ensure_room_code : I64 → AccessTime → AccessControl → (Text × Bool) × AccessControl
unfolding needs_issue issue current_code
ensure_room_code chat_id now a =
    let fresh = needs_issue (IdMap.get chat_id a.pending) now in
    let a' = if fresh then issue chat_id now a else a in
    ((current_code (IdMap.get chat_id a'.pending), fresh), a')

pub arm_room : I64 → AccessTime → AccessControl → Option RoomPairing × AccessControl
unfolding is_chat_allowed
arm_room chat_id now a =
    if IdSet.contains chat_id a.allowed_chat_ids
    then (none, a)
    else let ((code, newly_issued), a') = ensure_room_code chat_id now a in
      (some (record { code = code; newly_issued = newly_issued }), a')

pub check_chat : I64 → AccessControl → ChatAccess × AccessControl
check_chat chat_id a =
    if IdSet.contains chat_id a.allowed_chat_ids
    then (allowed, a)
    else let (send_hint, hinted) = IdSet.insert chat_id a.hinted_unknown_chats in
      (unknown send_hint, record a { hinted_unknown_chats = hinted })

pub allow_chat : I64 → AccessControl → AccessControl
allow_chat chat_id a = record a {
  allowed_chat_ids = (IdSet.insert chat_id a.allowed_chat_ids).1;
  hinted_unknown_chats = IdSet.remove chat_id a.hinted_unknown_chats;
}

pub deny_chat : I64 → AccessControl → AccessControl
deny_chat chat_id a = record a {
  allowed_chat_ids = IdSet.remove chat_id a.allowed_chat_ids;
  hinted_unknown_chats = IdSet.remove chat_id a.hinted_unknown_chats;
  attempts = IdMap.remove chat_id a.attempts;
  pending = IdMap.remove chat_id a.pending;
}

pub add_owner : I64 → AccessControl → AccessControl
add_owner user_id a = record a { owner_user_ids = (IdSet.insert user_id a.owner_user_ids).1 }

-- The lock of an entry that has one, while it runs.
running_lock : AttemptState → AccessTime → Option AccessTime
running_lock attempt now = elim attempt.locked_until [
  | none ↦ none
  | some until ↦ if ltb now until then some until else none
]

-- An expired lock is removed with its entry.
drop_expired_lock : Option AttemptState → I64 → AccessTime → AccessControl → AccessControl
drop_expired_lock none chat_id now a = a
drop_expired_lock (some attempt) chat_id now a = elim attempt.locked_until [
  | none ↦ a
  | some until ↦
      if ltb now until then a else record a { attempts = IdMap.remove chat_id a.attempts }
]

lock_of : Option AttemptState → AccessTime → Option AccessTime
unfolding running_lock
lock_of none now = none
lock_of (some attempt) now = running_lock attempt now

unfoldable pub locked_until : I64 → AccessTime → AccessControl → Option AccessTime × AccessControl
unfolding lock_of drop_expired_lock
locked_until chat_id now a =
    let entry = IdMap.get chat_id a.attempts in
    (lock_of entry now, drop_expired_lock entry chat_id now a)

-- `entry(..).or_insert(..)`, then the reset of a window that is over.
pub attempt_entry : Option AttemptState → AccessTime → AttemptState
attempt_entry none now = record { window_started_at = now; count = 0; locked_until = none }
attempt_entry (some attempt) now =
    if leb lockout_window (saturating_sub now attempt.window_started_at)
    then record { window_started_at = now; count = 0; locked_until = none }
    else attempt

-- `u8::saturating_add(1)`
next_count : ℕ → ℕ
next_count count = if ltb count 255 then count + 1 else 255

-- The counted failure, on the entry itself: the answer and the new entry.
pub count_failure : AttemptState → AccessTime → PairingAttempt × AttemptState
unfolding next_count
count_failure attempt now =
    let count = next_count attempt.count in
    let until = saturating_add now lockout_duration in
    if leb max_pairing_attempts count
    then (locked_out until, record attempt { count = count; locked_until = some until })
    else (rejected (max_pairing_attempts - count), record attempt { count = count })

pub record_failed_attempt : I64 → AccessTime → AccessControl → PairingAttempt × AccessControl
unfolding attempt_entry count_failure
record_failed_attempt chat_id now a =
    let (answer, attempt) = count_failure (attempt_entry (IdMap.get chat_id a.attempts) now) now in
    (answer, record a { attempts = IdMap.insert chat_id attempt a.attempts })

-- What `attempt_pair` does with a code that matches.
approve : I64 → AccessControl → AccessControl
approve chat_id a = record a {
  allowed_chat_ids = (IdSet.insert chat_id a.allowed_chat_ids).1;
  attempts = IdMap.remove chat_id a.attempts;
  hinted_unknown_chats = IdSet.remove chat_id a.hinted_unknown_chats;
  pending = IdMap.remove chat_id a.pending;
}

-- The comparison, once neither an allowed chat nor a running lock has ended the attempt.
compare_code : I64 → Text → AccessTime → AccessControl → PairingAttempt × AccessControl
unfolding approve
compare_code chat_id submitted_code now a =
    let ((expected, newly_issued), a') = ensure_room_code chat_id now a in
    if constant_time_eq (as_bytes expected) (as_bytes submitted_code)
    then (paired, approve chat_id a')
    else record_failed_attempt chat_id now a'

unfoldable pub attempt_pair :
    I64 → Text → AccessTime → AccessControl → PairingAttempt × AccessControl
unfolding compare_code
attempt_pair chat_id submitted_code now a =
    if IdSet.contains chat_id a.allowed_chat_ids
    then (already_allowed, a)
    else let (lock, a') = locked_until chat_id now a in
      elim lock [
        | some until ↦ (locked_out until, a')
        | none ↦ compare_code chat_id submitted_code now a'
      ]

is_owner : Option I64 → IdSet → Bool
is_owner none owners = false
is_owner (some user_id) owners = IdSet.contains user_id owners

pub check_privileged : Option I64 → ℕ → AccessTime → AccessControl → PrivilegedAccess
unfolding is_owner
check_privileged sender_user_id message_unix_seconds now a =
    if not (is_owner sender_user_id a.owner_user_ids)
    then not_owner
    else if ltb privileged_command_stale_after (saturating_sub now message_unix_seconds)
    then stale
    else allowed

pub room_code : I64 → AccessControl → Option Text
room_code chat_id a = map_option (λ (p : PairingState). p.code) (IdMap.get chat_id a.pending)
