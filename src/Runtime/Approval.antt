-- ===== src/Runtime/Approval.antt =====
-- src/runtime.rs: the handlers that let chats in and out.
pub mod Agreement
pub mod Pairing
pub mod Membership
pub mod Revocation
pub mod Race
pub mod Unsaved
mod Examples
use tellm.Base.{
  ℕ, ◌+◌, Bool, true, false, not, ◌&&◌, ◌||◌, Option, none, some, List, [], ◌∷◌, ◌++◌, ◌==◌,
  if◌then◌else◌, Text, codes, I64, text_eq, is_one_of,
}
use tellm.Base.Decimal.{decimal, i64_to_string}
use tellm.Base.IdSet
use tellm.Config.{Config}
use tellm.Access.{
  AccessTime, allow_chat, deny_chat, add_owner, attempt_pair, arm_room, is_chat_allowed,
  PairingAttempt, paired, already_allowed, rejected, locked_out,
}
use tellm.Runtime.ConfigEdits.{
  allow_chat_in_config, DenyChatConfigResult, changed, deny_chat_in_config, pair_in_config,
}
use tellm.Runtime.Replies.{format_deny_chat_reply}
use tellm.Runtime.Workers.{cancel_chat_worker, reactivate_chat_worker}
use tellm.Runtime.World.{
  World, Others, from, holding_config, send_command_reply, save_if, remove_room, room_setup_reply,
  send_room_setup,
}

-- The prompt for a room that was let in; its outcome counts only where the caller asks.
pub set_up_room : Others → I64 → Bool → World → Option Text × World
unfolding room_setup_reply send_room_setup
set_up_room others chat_id became_owner w =
    let (setup, w') = room_setup_reply chat_id became_owner (others 0 w) in
    send_room_setup (others 2) chat_id setup (others 1 w')

-- The configuration part of `handle_allow_chat` and of the approval of an owner's group: whether
-- the chat was new, and the error of a failed save.
pub allow_in_config : Others → I64 → World → (Bool × Option Text) × World
unfolding save_if
allow_in_config others chat_id w =
    let w0 = others 0 w in
    let (is_new, config) = allow_chat_in_config chat_id w0.config in
    let (result, w1) = save_if is_new (others 1) w0.config (record w0 { config = config }) in
    ((is_new, result), w1)

allow_reply : Bool → I64 → Text
allow_reply true chat_id = codes "Allowed chat " ++ i64_to_string chat_id ++ codes "."
allow_reply false chat_id = codes "Chat " ++ i64_to_string chat_id ++ codes " is already allowed."

-- The live part, after the lock of the configuration was released.
pub allow_live : Others → I64 → World → World
allow_live others chat_id w =
    let w' = others 0 w in record w' { access = allow_chat chat_id w'.access }

pub announce_allowed : Others → Bool → I64 → I64 → World → Option Text × World
unfolding set_up_room allow_reply send_command_reply
announce_allowed others is_new requester_chat_id target_chat_id w =
    let w' =
      if is_new && not (target_chat_id == requester_chat_id)
      then others 3 (set_up_room others target_chat_id false w).1
      else w in
    send_command_reply requester_chat_id (allow_reply is_new target_chat_id) w'

unfoldable pub handle_allow_chat : Others → I64 → I64 → World → Option Text × World
unfolding allow_in_config allow_live announce_allowed
handle_allow_chat others requester_chat_id target_chat_id w =
    let ((is_new, result), w1) = allow_in_config others target_chat_id w in
    elim result [
      | some error ↦ (
        some (
            codes "failed to persist allowed chat "
            ++ i64_to_string target_chat_id
            ++ codes ": "
            ++ error),
        w1,
      )
      | none ↦
          announce_allowed (from 3 others) is_new requester_chat_id target_chat_id
            (allow_live (from 2 others) target_chat_id w1)
    ]

-- The live access of a chat is closed while the lock of the configuration is held.
close_access : I64 → I64 → World → Bool × World
close_access requester_chat_id target_chat_id w = (
  is_chat_allowed target_chat_id w.access,
  record w {
    access = deny_chat target_chat_id w.access;
    workers =
        cancel_chat_worker target_chat_id (not (target_chat_id == requester_chat_id)) w.workers;
  },
)

-- What a denial that was not saved gives back; the configuration is back by then.
reopen_access : (World → World) → Bool → I64 → I64 → World → World
reopen_access others was_allowed requester_chat_id target_chat_id w =
    let w1 = holding_config others w in
    let w2 =
      if was_allowed then record w1 { access = allow_chat target_chat_id w1.access } else w in
    if target_chat_id == requester_chat_id
    then record w2 { workers = reactivate_chat_worker target_chat_id w2.workers }
    else w2

-- What follows the save of a denial.
after_denial :
    (World → World)
    → Bool
    → I64
    → I64
    → DenyChatConfigResult
    → Option Text × World
    → (DenyChatConfigResult × Option Text) × World
unfolding reopen_access
after_denial others was_allowed requester_chat_id target_chat_id result (none, w) =
    ((result, none), w)
after_denial others was_allowed requester_chat_id target_chat_id result (some error, w) =
    ((result, some error), reopen_access others was_allowed requester_chat_id target_chat_id w)

-- The part of `handle_deny_chat` under the lock of the configuration.
unfoldable pub deny_in_config :
    Others → I64 → I64 → World → (DenyChatConfigResult × Option Text) × World
unfolding save_if close_access after_denial
deny_in_config others requester_chat_id target_chat_id w =
    let w0 = others 0 w in
    let (result, config) = deny_chat_in_config target_chat_id w0.config in
    let w1 = holding_config (others 1) (record w0 { config = config }) in
    let (was_allowed, w2) = close_access requester_chat_id target_chat_id w1 in
    after_denial (others 3) was_allowed requester_chat_id target_chat_id result
      (save_if (changed result) (others 2) w0.config w2)

confirm_denial : DenyChatConfigResult → I64 → I64 → Option Text × World → Option Text × World
unfolding send_command_reply
confirm_denial result requester_chat_id target_chat_id (some error, w) = (
  some (
      codes "chat "
      ++ i64_to_string target_chat_id
      ++ codes " was denied, but its room cleanup could not be persisted: "
      ++ error),
  w,
)
confirm_denial result requester_chat_id target_chat_id (none, w) =
    send_command_reply requester_chat_id (format_deny_chat_reply target_chat_id result) w

clean_up_room : Others → DenyChatConfigResult → I64 → I64 → World → Option Text × World
unfolding remove_room confirm_denial
clean_up_room others result requester_chat_id target_chat_id w =
    confirm_denial result requester_chat_id target_chat_id
      (remove_room (others 1) target_chat_id (others 0 w))

unfoldable pub deny_save_error : I64 → Text → Text
deny_save_error chat_id error =
    codes "failed to persist denied chat " ++ i64_to_string chat_id ++ codes ": " ++ error

after_deny_in_config :
    Others → I64 → I64 → (DenyChatConfigResult × Option Text) × World → Option Text × World
unfolding clean_up_room deny_save_error
after_deny_in_config others requester_chat_id target_chat_id ((result, some error), w) =
    (some (deny_save_error target_chat_id error), w)
after_deny_in_config others requester_chat_id target_chat_id ((result, none), w) =
    clean_up_room others result requester_chat_id target_chat_id w

unfoldable pub handle_deny_chat : Others → I64 → I64 → World → Option Text × World
unfolding deny_in_config after_deny_in_config
handle_deny_chat others requester_chat_id target_chat_id w =
    after_deny_in_config (from 4 others) requester_chat_id target_chat_id
      (deny_in_config others requester_chat_id target_chat_id w)

-- Whether the pairing user became an owner, and the error of a failed save.
persist_paired_chat : Others → I64 → Option I64 → World → (Bool × Option Text) × World
unfolding save_if
persist_paired_chat others chat_id pairer_user_id w =
    let w0 = others 0 w in
    let ((became_owner, is_changed), config) = pair_in_config chat_id pairer_user_id w0.config in
    let (result, w1) = save_if is_changed (others 1) w0.config (record w0 { config = config }) in
    ((became_owner, result), w1)

revoke_unless_saved :
    (World → World) → I64 → (Bool × Option Text) × World → (Bool × Option Text) × World
revoke_unless_saved others chat_id ((became_owner, none), w) = ((became_owner, none), w)
revoke_unless_saved others chat_id ((became_owner, some error), w) =
    let w' = others w in
    (
      (
        became_owner,
        some (codes "pairing matched but could not be persisted; access was revoked: " ++ error),
      ),
      record w' { access = deny_chat chat_id w'.access },
    )

-- The grant of `attempt_pair` is revoked if it could not be saved.
persist_provisional_pair : Others → I64 → Option I64 → World → (Bool × Option Text) × World
unfolding persist_paired_chat revoke_unless_saved
persist_provisional_pair others chat_id pairer_user_id w =
    revoke_unless_saved (others 2) chat_id (persist_paired_chat others chat_id pairer_user_id w)

-- `pairer_user_id.filter(|_| became_owner)`
add_pairer : Others → Option I64 → Bool → World → World
add_pairer others (some user_id) true w =
    let w' = others 0 w in record w' { access = add_owner user_id w'.access }
add_pairer others _ _ w = w

-- What follows the attempt to save a pairing.
after_pairing : Others → I64 → Option I64 → (Bool × Option Text) × World → Option Text × World
unfolding add_pairer set_up_room send_command_reply
after_pairing others chat_id pairer_user_id ((became_owner, some error), w) = (
  some error,
  (send_command_reply chat_id
      (codes
        "Pairing could not be saved, so this chat remains denied. Contact the bot owner after fixing local config storage.")
      (others 0 w)).1,
)
after_pairing others chat_id pairer_user_id ((became_owner, none), w) =
    set_up_room (from 1 others) chat_id became_owner
      (add_pairer others pairer_user_id became_owner w)

pairing_matched : Others → I64 → Option I64 → World → Option Text × World
unfolding persist_provisional_pair after_pairing
pairing_matched others chat_id pairer_user_id w =
    after_pairing (from 3 others) chat_id pairer_user_id
      (persist_provisional_pair others chat_id pairer_user_id w)

pairing_answer : Others → PairingAttempt → I64 → Option I64 → World → Option Text × World
unfolding pairing_matched send_command_reply
pairing_answer others paired chat_id pairer_user_id w =
    pairing_matched others chat_id pairer_user_id w
pairing_answer others already_allowed chat_id pairer_user_id w =
    send_command_reply chat_id (codes "This chat is already paired.") w
pairing_answer others (rejected attempts_remaining) chat_id pairer_user_id w =
    send_command_reply chat_id
      (codes "Pairing code rejected. Attempts remaining: "
        ++ decimal attempts_remaining
        ++ codes ".")
      w
pairing_answer others (locked_out until) chat_id pairer_user_id w =
    send_command_reply chat_id
      (codes "Too many pairing attempts. Try again after Unix time " ++ decimal until ++ codes ".")
      w

unfoldable pub handle_pair_attempt :
    Others → AccessTime → I64 → Text → Option I64 → World → Option Text × World
unfolding pairing_answer
handle_pair_attempt others now chat_id code pairer_user_id w =
    let w0 = others 0 w in
    let (attempt, access) = attempt_pair chat_id code now w0.access in
    pairing_answer (from 1 others) attempt chat_id pairer_user_id (record w0 { access = access })

-- `ChatMemberUpdated`, as far as the handler reads it.
pub record ChatMemberUpdated : Type 0 where
  pub chat_id : I64
  pub from_user_id : Option I64
  pub new_status : Text

is_trusted : Option I64 → Config → Bool
is_trusted none config = false
is_trusted (some user_id) config = IdSet.contains user_id config.telegram.owner_user_ids

-- An owner added the bot: the prompt is sent by a task of its own.
approve_group : Others → I64 → World → World
unfolding allow_in_config allow_live set_up_room
approve_group others chat_id w =
    let ((is_new, result), w1) = allow_in_config others chat_id w in
    elim result [
      | some error ↦ w1
      | none ↦ (set_up_room (from 3 others) chat_id false (allow_live (from 2 others) chat_id w1)).1
    ]

added_to_chat : Others → AccessTime → ChatMemberUpdated → World → World
unfolding is_trusted approve_group
added_to_chat others now membership w =
    let w0 = others 0 w in
    let w1 = others 1 w0 in
    if is_trusted membership.from_user_id w0.config
    then approve_group (from 1 others) membership.chat_id w0
    else record w1 { access = (arm_room membership.chat_id now w1.access).1 }

unfoldable pub handle_membership_change : Others → AccessTime → ChatMemberUpdated → World → World
unfolding added_to_chat
handle_membership_change others now membership w =
    if is_one_of (codes "member" ∷ codes "administrator" ∷ codes "restricted" ∷ [])
      membership.new_status
    then added_to_chat others now membership w
    else w
