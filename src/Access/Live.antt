-- ===== src/Access/Live.antt =====
-- The allowed chats and the owners after each method.
use tellm.Base.{◌≡◌, refl, true, false, ◌&&◌, ◌||◌, Text, I64, arith, ◌==◌, if◌then◌else◌}
use tellm.Base.IdSet
use tellm.Base.IdSet.{contains-insert, contains-remove}
use tellm.Access.{
  AccessControl, AccessTime, is_chat_allowed, allow_chat, deny_chat, add_owner, attempt_pair,
  arm_room, check_chat, ensure_room_code, locked_until, drop_expired_lock, compare_code,
  record_failed_attempt, issue, approve,
}
use tellm.Access.Pairing.{is_paired, allowed-attempt_pair}

pub allowed-allow :
    (k j : I64) (a : AccessControl)
    → is_chat_allowed j (allow_chat k a) ≡ (k == j || is_chat_allowed j a)
unfolding is_chat_allowed allow_chat
allowed-allow k j a = contains-insert k j a.allowed_chat_ids

pub allowed-deny :
    (k j : I64) (a : AccessControl)
    → is_chat_allowed j (deny_chat k a) ≡ (if k == j then false else is_chat_allowed j a)
unfolding is_chat_allowed deny_chat
allowed-deny k j a = contains-remove k j a.allowed_chat_ids

pub owners-access-allow :
    (k : I64) (a : AccessControl) → (allow_chat k a).owner_user_ids ≡ a.owner_user_ids
unfolding allow_chat
owners-access-allow k a = refl

pub owners-access-deny :
    (k : I64) (a : AccessControl) → (deny_chat k a).owner_user_ids ≡ a.owner_user_ids
unfolding deny_chat
owners-access-deny k a = refl

pub allowed-add_owner :
    (u j : I64) (a : AccessControl) → is_chat_allowed j (add_owner u a) ≡ is_chat_allowed j a
unfolding add_owner is_chat_allowed
allowed-add_owner u j a = refl

pub owners-add_owner :
    (u j : I64) (a : AccessControl)
    → IdSet.contains j (add_owner u a).owner_user_ids
      ≡ (u == j || IdSet.contains j a.owner_user_ids)
unfolding add_owner
owners-add_owner u j a = contains-insert u j a.owner_user_ids

owners-ensure :
    (k : I64) (now : AccessTime) (a : AccessControl)
    → (ensure_room_code k now a).1.owner_user_ids ≡ a.owner_user_ids
unfolding ensure_room_code issue
owners-ensure k now a = ground arith

owners-compare :
    (k : I64) (code : Text) (now : AccessTime) (a : AccessControl)
    → (compare_code k code now a).1.owner_user_ids ≡ a.owner_user_ids
unfolding compare_code record_failed_attempt approve
owners-compare k code now a = ground (arith, owners-ensure k now a)

owners-locked_until :
    (k : I64) (now : AccessTime) (a : AccessControl)
    → (locked_until k now a).1.owner_user_ids ≡ a.owner_user_ids
unfolding locked_until drop_expired_lock
owners-locked_until k now a = ground arith

pub owners-attempt_pair :
    (k : I64) (code : Text) (now : AccessTime) (a : AccessControl)
    → (attempt_pair k code now a).1.owner_user_ids ≡ a.owner_user_ids
unfolding attempt_pair
owners-attempt_pair k code now a =
    ground (arith, owners-locked_until k now a, owners-compare k code now (locked_until k now a).1)

-- Only a chat that is not allowed is paired.
pub paired-denied :
    (k : I64) (code : Text) (now : AccessTime) (a : AccessControl)
    → is_paired (attempt_pair k code now a).0 ≡ true
    → is_chat_allowed k a ≡ false
unfolding attempt_pair is_chat_allowed
paired-denied k code now a h = ground arith

pub live-arm_room :
    (k j : I64) (now : AccessTime) (a : AccessControl)
    → (is_chat_allowed j (arm_room k now a).1 ≡ is_chat_allowed j a)
      × ((arm_room k now a).1.owner_user_ids ≡ a.owner_user_ids)
unfolding arm_room is_chat_allowed ensure_room_code issue
live-arm_room k j now a = (ground arith, ground arith)

pub live-check_chat :
    (k j : I64) (a : AccessControl)
    → (is_chat_allowed j (check_chat k a).1 ≡ is_chat_allowed j a)
      × ((check_chat k a).1.owner_user_ids ≡ a.owner_user_ids)
unfolding check_chat is_chat_allowed
live-check_chat k j a = (ground arith, ground arith)

pub live-attempt_pair :
    (k j : I64) (code : Text) (now : AccessTime) (a : AccessControl)
    → is_chat_allowed j (attempt_pair k code now a).1
      ≡ (is_chat_allowed j a || (k == j && is_paired (attempt_pair k code now a).0))
unfolding is_chat_allowed
live-attempt_pair k j code now a = allowed-attempt_pair k j code now a
