-- ===== src/Runtime/Approval/Examples.antt =====
-- Runs of the approval handlers, and their theorems at these inputs.
use tellm.Base.{◌≡◌, ◌≢◌, arith, refl, ◌++◌, [], ◌∷◌, true, false, none, some, Text, codes, I64}
use tellm.Config.{Config}
use tellm.Access.Pairing.{is_paired}
use tellm.Access.{
  attempt_pair, ensure_room_code, locked_until, is_chat_allowed, new_with_generator, from_config,
}
use tellm.Rooms.Table
use tellm.Base.IdSet
use tellm.Base.IdMap
use tellm.Access.Code.{normalize_pairing_code, constant_time_eq, as_bytes}
use tellm.Persistence.{save_config, save_rooms, remove_room}
use tellm.Runtime.ConfigEdits.Configured.{configured}
use tellm.Runtime.ConfigEdits.{pair_in_config, deny_chat_in_config, changed, retain_pins, is_empty}
use tellm.Runtime.World
use tellm.Runtime.World.{
  text_message, alone, save_if, save_or_restore, restore_unless, send_command_reply,
}
use tellm.Runtime.Samples.{sample_world, sample_writer, sample_config, sample_generator}
use tellm.Runtime.Approval.{
  handle_allow_chat, handle_pair_attempt, handle_deny_chat, deny_save_error,
}
use tellm.Runtime.Approval.Revocation.{IsDenied, alone-LeavesOut, handle_deny_chat-IsDenied}
use tellm.Runtime.World.Agreement.{Agrees}
use tellm.Runtime.Approval.Unsaved.{handle_pair_attempt-unsaved, handle_deny_chat-unsaved}
use tellm.Runtime.Approval.Race.{denied_between, handle_allow_chat-raced}

handle_allow_chat-raced_example :
    (is_chat_allowed 7 (handle_allow_chat (denied_between 6 7) 5 7 sample_world).1.access ≡ true)
    × (configured 7 (handle_allow_chat (denied_between 6 7) 5 7 sample_world).1.config ≡ false)
    × (is_chat_allowed 7 (
          new_with_generator
            (from_config (handle_allow_chat (denied_between 6 7) 5 7 sample_world).1.config)
            sample_generator)
        ≡ false)
handle_allow_chat-raced_example =
    handle_allow_chat-raced 5 6 7 sample_world sample_generator
      (record { is_running = refl; succeeds = λ n. refl })

denial_confirmed : (handle_deny_chat alone 6 5 sample_world).0 ≡ none
unfolding handle_deny_chat deny_chat_in_config changed save_if save_or_restore restore_unless
    save_config save_rooms remove_room World.remove_room IdSet.contains IdSet.remove retain_pins
    is_empty send_command_reply
denial_confirmed = refl

confirmed_ne : (e : Text) → (handle_deny_chat alone 6 5 sample_world).0 ≢ some (deny_save_error 5 e)
confirmed_ne e h = cc (denial_confirmed)

handle_deny_chat-IsDenied_example :
    IsDenied 5 (handle_deny_chat alone 6 5 sample_world).1
    × (Table.get 5 (handle_deny_chat alone 6 5 sample_world).1.rooms ≡ none)
handle_deny_chat-IsDenied_example =
    handle_deny_chat-IsDenied alone 6 5 sample_world (λ n. alone-LeavesOut 5 n) confirmed_ne

-- A world whose disk is full.
abbrev full_disk : World.World
full_disk = record sample_world {
  writer = record sample_writer { outcomes = λ n. some (codes "disk full") };
  access = record {
    allowed_chat_ids = 5 ∷ [];
    owner_user_ids = 9 ∷ [];
    pending = [];
    attempts = [];
    hinted_unknown_chats = [];
    code_generator = sample_generator;
    generated = 0;
  };
}

full_disk-Agrees : Agrees full_disk
unfolding is_chat_allowed IdSet.contains
full_disk-Agrees = record { live = λ j. ground arith; owners = λ j. refl; file = refl }

code_matches : is_paired (attempt_pair 7 (codes "123456") 1000 full_disk.access).0 ≡ true
unfolding attempt_pair ensure_room_code locked_until IdSet.contains IdMap.get IdMap.insert
    IdMap.remove normalize_pairing_code constant_time_eq as_bytes IdSet.union IdSet.collect
    IdSet.insert IdSet.remove
code_matches = refl

save_fails : (config : Config) → (save_config config full_disk.writer).0 ≡ some (codes "disk full")
unfolding save_config
save_fails config = refl

handle_pair_attempt-unsaved_example :
    let r = handle_pair_attempt alone 1000 7 (codes "123456") (some 11) full_disk in
    (r.0
      ≡ some (
          codes "pairing matched but could not be persisted; access was revoked: "
          ++ codes "disk full"))
    × (r.1.config ≡ sample_config)
    × (r.1.access.owner_user_ids ≡ full_disk.access.owner_user_ids)
    × ((j : I64) → is_chat_allowed j r.1.access ≡ is_chat_allowed j full_disk.access)
    × (is_chat_allowed 7 r.1.access ≡ false)
    × (r.1.telegram.requests
        ≡ []
          ++ text_message 7 (
              codes
                "Pairing could not be saved, so this chat remains denied. Contact the bot owner after fixing local config storage.")
            ∷ [])
handle_pair_attempt-unsaved_example =
    handle_pair_attempt-unsaved 7 (codes "123456") 1000 (some 11) full_disk (codes "disk full")
      full_disk-Agrees code_matches (save_fails (pair_in_config 7 (some 11) sample_config).1)

open_before : is_chat_allowed 5 full_disk.access ≡ true
unfolding is_chat_allowed IdSet.contains
open_before = refl

handle_deny_chat-unsaved_example :
    let r = handle_deny_chat alone 6 5 full_disk in
    (r.0 ≡ some (deny_save_error 5 (codes "disk full")))
    × (r.1.config ≡ sample_config)
    × (r.1.access.owner_user_ids ≡ full_disk.access.owner_user_ids)
    × ((i : I64) → is_chat_allowed i r.1.access ≡ is_chat_allowed i full_disk.access)
    × (r.1.rooms ≡ full_disk.rooms)
    × (r.1.telegram ≡ full_disk.telegram)
handle_deny_chat-unsaved_example =
    handle_deny_chat-unsaved 6 5 full_disk (codes "disk full") full_disk-Agrees open_before
      (save_fails (deny_chat_in_config 5 sample_config).1)
