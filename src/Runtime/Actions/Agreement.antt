-- ===== src/Runtime/Actions/Agreement.antt =====
-- Every action of a command, run alone, keeps the live access, the configuration and its file in
-- agreement.
use tellm.Base.{
  ◌≡◌, refl, sym, ◌∙◌, Bool, true, false, Option, none, some, Text, I64, arith, ==_iff, codes,
  is_one_of, List,
}
use tellm.Rooms.{RoomState}
use tellm.Access.{is_chat_allowed}
use tellm.Commands.{
  CommandAction, reset_history, show_chat_id, show_mode, set_mode, show_model, set_model, pin_model,
  unpin_model, show_model_catalog, add_model, show_role, set_role, show_reasoning, set_reasoning,
  show_web_search, set_web_search, show_image_generation, set_image_generation, allow_chat,
  deny_chat, pair_room, unload_ollama, shut_down, show_help, reject,
}
use tellm.Persistence.Saves.{config_file-save_rooms}
use tellm.Runtime.ConfigEdits.{model_keys, pin_in_config, unpin_in_config}
use tellm.Runtime.ConfigEdits.Configured.{
  configured, configured-pin, configured-unpin, owners-pin, owners-unpin, unpin-unchanged,
}
use tellm.Runtime.World.{World, alone, send_command_reply, send_model_picker, save_if, mutate_room}
use tellm.Runtime.World.Agreement.{Agrees, SameAccess, SameAccess-refl, Agrees-same, Agrees-changed}
use tellm.Runtime.Approval.Agreement.{handle_allow_chat-Agrees, handle_deny_chat-Agrees}
use tellm.Runtime.Approval.Pairing.{handle_pair_attempt-Agrees}
use tellm.Runtime.Prompt.Agreement.{handle_add_model-Agrees}
use tellm.Runtime.Routing.Checked.{Names}
use tellm.Runtime.Actions.{
  Services, reply_if_saved, set_in_room, new_chat, model_shown, pinned, handle_pin_model, unpinned,
  handle_unpin_model, show_catalog, request_shutdown, handle_command,
}

sent-same : (k : I64) (text : Text) (w : World) → SameAccess w (send_command_reply k text w).1
unfolding send_command_reply
sent-same k text w = record { same_config = refl; same_access = refl; same_file = refl }

reply_if_saved-same :
    (k : I64) (text : Text) (r : Option Text × World) → SameAccess r.1 (reply_if_saved k text r).1
unfolding reply_if_saved
reply_if_saved-same k text (some e, w) = record {
  same_config = refl;
  same_access = refl;
  same_file = refl;
}
reply_if_saved-same k text (none, w) = sent-same k text w

mutate_room-same :
    (k : I64) (f : RoomState → RoomState) (w : World) → SameAccess w (mutate_room (alone 1) k f w).1
unfolding mutate_room
mutate_room-same k f w = record {
  same_config = refl;
  same_access = refl;
  same_file = config_file-save_rooms _ w.writer;
}

set_in_room-Agrees :
    (k : I64) (f : RoomState → RoomState) (text : Text) (w : World)
    → Agrees w
    → Agrees (set_in_room alone k f text w).1
unfolding set_in_room
set_in_room-Agrees k f text w v =
    Agrees-same _ _ (reply_if_saved-same k text (mutate_room (alone 1) k f w))
      (Agrees-same _ _ (mutate_room-same k f w) v)

pinned-Agrees :
    (k : I64) (key : Text) (r : Option Text × World) → Agrees r.1 → Agrees (pinned alone k key r).1
unfolding pinned
pinned-Agrees k key (some e, w) v = v
pinned-Agrees k key (none, w) v = set_in_room-Agrees k _ _ w v

unpinned-Agrees :
    (k : I64) (b : Bool) (r : Option Text × World) → Agrees r.1 → Agrees (unpinned alone k b r).1
unfolding unpinned
unpinned-Agrees k b (some e, w) v = v
unpinned-Agrees k true (none, w) v = set_in_room-Agrees k _ _ w v
unpinned-Agrees k false (none, w) v = Agrees-same _ _ (sent-same k _ w) v

-- The chat of the command is allowed, so that its pin allows no other chat.
handle_pin_model-Agrees :
    (k : I64) (key : Text) (w : World)
    → is_one_of (model_keys w.config.models) key ≡ true
    → is_chat_allowed k w.access ≡ true
    → Agrees w
    → Agrees (handle_pin_model alone k key w).1
unfolding handle_pin_model save_if
handle_pin_model-Agrees k key w known allowed v =
    let listed : configured k w.config ≡ true = sym (v.live k) ∙ allowed in
    pinned-Agrees k key _ (
      Agrees-changed true (pin_in_config k key w.config) w v
        (λ j. ground (arith, configured-pin k j key w.config known, ==_iff k j, listed))
        (owners-pin k key w.config) (λ h. absurd cc))

handle_unpin_model-Agrees :
    (k : I64) (w : World) → Agrees w → Agrees (handle_unpin_model alone k w).1
unfolding handle_unpin_model
handle_unpin_model-Agrees k w v = unpinned-Agrees k (unpin_in_config k w.config).0 _ (
    Agrees-changed (unpin_in_config k w.config).0 (unpin_in_config k w.config).1 w v
      (λ j. configured-unpin k j w.config) (owners-unpin k w.config)
      (λ h. unpin-unchanged k w.config h))

request_shutdown-same : (r : Option Text × World) → SameAccess r.1 (request_shutdown r).1
unfolding request_shutdown
request_shutdown-same (some e, w) = SameAccess-refl w
request_shutdown-same (none, w) = record {
  same_config = refl;
  same_access = refl;
  same_file = refl;
}

model_shown-same :
    (k : I64) (s : Option Text) (e : Text) (p : Option Text) (keys : List Text) (w : World)
    → SameAccess w (model_shown k s e p keys w).1
unfolding model_shown send_model_picker
model_shown-same k s e none keys w = record {
  same_config = refl;
  same_access = refl;
  same_file = refl;
}
model_shown-same k s e (some p) keys w = sent-same k _ w

pub handle_command-Agrees :
    (env : Services) (k : I64) (action : CommandAction) (w : World)
    → Names action w.config
    → is_chat_allowed k w.access ≡ true
    → Agrees w
    → Agrees (handle_command alone env k action w).1
unfolding handle_command new_chat show_catalog
handle_command-Agrees env k reset_history w n a v =
    Agrees-same _ _ (sent-same k _ _) (record { live = v.live; owners = v.owners; file = v.file })
handle_command-Agrees env k show_chat_id w n a v = Agrees-same _ _ (sent-same k _ w) v
handle_command-Agrees env k (show_mode m) w n a v = Agrees-same _ _ (sent-same k _ w) v
handle_command-Agrees env k (set_mode m) w n a v = set_in_room-Agrees k _ _ w v
handle_command-Agrees env k (show_model s e p keys) w n a v =
    Agrees-same _ _ (model_shown-same k s e p keys w) v
handle_command-Agrees env k (set_model key) w n a v = set_in_room-Agrees k _ _ w v
handle_command-Agrees env k (pin_model key) w n a v = handle_pin_model-Agrees k key w n a v
handle_command-Agrees env k unpin_model w n a v = handle_unpin_model-Agrees k w v
handle_command-Agrees env k show_model_catalog w n a v = Agrees-same _ _ (sent-same k _ w) v
handle_command-Agrees env k (add_model key) w n a v = handle_add_model-Agrees env.secrets k key w v
handle_command-Agrees env k (show_role r) w n a v = Agrees-same _ _ (sent-same k _ w) v
handle_command-Agrees env k (set_role r) w n a v = set_in_room-Agrees k _ _ w v
handle_command-Agrees env k (show_reasoning o d) w n a v = Agrees-same _ _ (sent-same k _ w) v
handle_command-Agrees env k (set_reasoning t) w n a v = set_in_room-Agrees k _ _ w v
handle_command-Agrees env k (show_web_search b) w n a v = Agrees-same _ _ (sent-same k _ w) v
handle_command-Agrees env k (set_web_search b) w n a v = set_in_room-Agrees k _ _ w v
handle_command-Agrees env k (show_image_generation b) w n a v = Agrees-same _ _ (sent-same k _ w) v
handle_command-Agrees env k (set_image_generation b) w n a v = set_in_room-Agrees k _ _ w v
handle_command-Agrees env k (allow_chat j) w n a v = handle_allow_chat-Agrees k j w v
handle_command-Agrees env k (deny_chat j) w n a v = handle_deny_chat-Agrees k j w v
handle_command-Agrees env k (pair_room code) w n a v =
    handle_pair_attempt-Agrees env.now k code none w v
handle_command-Agrees env k unload_ollama w n a v = Agrees-same _ _ (sent-same k _ w) v
handle_command-Agrees env k shut_down w n a v =
    Agrees-same _ _ (request_shutdown-same (send_command_reply k (codes "Shutting down.") w))
      (Agrees-same _ _ (sent-same k _ w) v)
handle_command-Agrees env k (show_help p) w n a v = Agrees-same _ _ (sent-same k _ w) v
handle_command-Agrees env k (reject r) w n a v = Agrees-same _ _ (sent-same k _ w) v
