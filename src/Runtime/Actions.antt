-- ===== src/Runtime/Actions.antt =====
-- src/runtime.rs, `handle_command`: what each action does. `Services` are the parameters of a
-- command: the clock, the secrets and the terminal, and the remembered Ollama models with the
-- server's answers.
pub mod Agreement
use tellm.Base.{
  ℕ, Bool, true, false, Option, none, some, List, [], ◌∷◌, ◌++◌, if◌then◌else◌, Text, codes, I64,
  unwrap_or,
}
use tellm.Core.{ThinkingLevel}
use tellm.Config.{Config}
use tellm.Rooms.{RoomState, RoomSettings, ChatMode, chat, message}
use tellm.Rooms
use tellm.Rooms.Table
use tellm.Access.{AccessTime}
use tellm.Commands.{
  CommandAction, reset_history, show_chat_id, show_mode, set_mode, show_model, set_model, pin_model,
  unpin_model, show_model_catalog, add_model, show_role, set_role, show_reasoning, set_reasoning,
  show_web_search, set_web_search, show_image_generation, set_image_generation, allow_chat,
  deny_chat, pair_room, unload_ollama, shut_down, show_help, reject,
}
use tellm.Ollama.{LoadedModel, UnloadAnswer, unload_models, unload_reply}
use tellm.Runtime.ConfigEdits.{model_keys, pin_in_config, unpin_in_config}
use tellm.Runtime.Replies.{
  mode_name, format_model_status, model_set_reply, chat_id_reply, format_reasoning_status,
  reasoning_set_reply, on_off,
}
use tellm.Runtime.Replies.Rejects.{format_reject, help_text}
use tellm.Runtime.Replies.Presets.{model_catalog_reply}
use tellm.Runtime.World.{
  World, Others, from, send_command_reply, send_model_picker, save_or_restore, save_if, mutate_room,
}
use tellm.Runtime.Approval.{handle_allow_chat, handle_deny_chat, handle_pair_attempt}
use tellm.Runtime.Prompt.{Secrets, handle_add_model}

pub record Services : Type 0 where
  pub now : AccessTime
  pub secrets : Secrets
  pub loaded_models : List LoadedModel
  pub unload_answer : LoadedModel → UnloadAnswer

-- `reset_room_model_context`
unfoldable pub reset_room_model_context : RoomState → RoomState
reset_room_model_context room =
    let settings : RoomSettings = record room.settings { thinking = none } in
    Rooms.reset_history (record room { settings = settings; wire_format = none })

reset_for_mode : ChatMode → RoomState → RoomState
reset_for_mode chat room = room
reset_for_mode message room = Rooms.reset_history room

with_mode : ChatMode → RoomState → RoomState
unfolding reset_for_mode
with_mode mode room =
    let settings : RoomSettings = record room.settings { mode = mode } in
    reset_for_mode mode (record room { settings = settings })

with_model : Text → RoomState → RoomState
with_model model_key room =
    let settings : RoomSettings = record room.settings { model_key = some model_key } in
    reset_room_model_context (record room { settings = settings })

with_role : Option Text → RoomState → RoomState
with_role role room =
    let settings : RoomSettings = record room.settings { role = role } in
    Rooms.reset_history (record room { settings = settings })

with_thinking : Option ThinkingLevel → RoomState → RoomState
with_thinking thinking room =
    let settings : RoomSettings = record room.settings { thinking = thinking } in
    record room { settings = settings }

with_web_search : Bool → RoomState → RoomState
with_web_search enabled room =
    let settings : RoomSettings = record room.settings { web_search = enabled } in
    record room { settings = settings }

with_image_generation : Bool → RoomState → RoomState
with_image_generation enabled room =
    let settings : RoomSettings = record room.settings { image_generation = enabled } in
    record room { settings = settings }

-- The reply after a mutation, or its error.
reply_if_saved : I64 → Text → Option Text × World → Option Text × World
reply_if_saved chat_id reply (some error, w) = (some error, w)
reply_if_saved chat_id reply (none, w) = send_command_reply chat_id reply w

-- A mutation of the chat's room, and the reply when it is saved.
set_in_room : Others → I64 → (RoomState → RoomState) → Text → World → Option Text × World
unfolding reply_if_saved
set_in_room others chat_id mutate reply w =
    reply_if_saved chat_id reply (mutate_room (others 1) chat_id mutate (others 0 w))

new_chat : Others → I64 → World → Option Text × World
new_chat others chat_id w =
    let w0 = others 0 w in
    let (room, rooms) = Table.get_or_default chat_id w0.rooms in
    send_command_reply chat_id (codes "Started a new chat.")
      (record w0 { rooms = Table.put chat_id (Rooms.reset_history room) rooms })

model_shown : I64 → Option Text → Text → Option Text → List Text → World → Option Text × World
model_shown chat_id selected effective none available w =
    send_model_picker chat_id (format_model_status selected effective none available) available w
model_shown chat_id selected effective (some pinned) available w =
    send_command_reply chat_id (format_model_status selected effective (some pinned) available) w

-- What follows the save of a pin.
pinned : Others → I64 → Text → Option Text × World → Option Text × World
unfolding set_in_room
pinned others chat_id model_key (some error, w) =
    (some (codes "failed to persist model pin: " ++ error), w)
pinned others chat_id model_key (none, w) =
    set_in_room others chat_id reset_room_model_context
      (codes "Room pinned to "
        ++ model_key
        ++ codes ". Chat history reset. /model unpin releases it.")
      w

handle_pin_model : Others → I64 → Text → World → Option Text × World
unfolding pinned
handle_pin_model others chat_id model_key w =
    let w0 = others 0 w in
    let config = pin_in_config chat_id model_key w0.config in
    pinned (from 2 others) chat_id model_key
      (save_or_restore (others 1) w0.config (record w0 { config = config }))

unpinned : Others → I64 → Bool → Option Text × World → Option Text × World
unfolding set_in_room
unpinned others chat_id was_pinned (some error, w) =
    (some (codes "failed to persist model unpin: " ++ error), w)
unpinned others chat_id true (none, w) =
    set_in_room others chat_id reset_room_model_context
      (codes "Room unpinned. Chat history reset. /model KEY now switches models here.") w
unpinned others chat_id false (none, w) =
    send_command_reply chat_id (codes "This room isn't pinned.") w

handle_unpin_model : Others → I64 → World → Option Text × World
unfolding unpinned
handle_unpin_model others chat_id w =
    let w0 = others 0 w in
    let (was_pinned, config) = unpin_in_config chat_id w0.config in
    unpinned (from 2 others) chat_id was_pinned
      (save_if was_pinned (others 1) w0.config (record w0 { config = config }))

show_catalog : Others → Secrets → I64 → World → Option Text × World
show_catalog others secrets chat_id w =
    let w0 = others 0 w in
    send_command_reply chat_id
      (model_catalog_reply (model_keys w0.config.models) secrets.has_secret) w0

role_reply : Option Text → Text
role_reply none = codes "Role cleared. Chat history reset."
role_reply (some role) = codes "Role updated. Chat history reset."

request_shutdown : Option Text × World → Option Text × World
request_shutdown (some error, w) = (some error, w)
request_shutdown (none, w) = (none, record w { shutdown_requested = true })

unfoldable pub handle_command :
    Others → Services → I64 → CommandAction → World → Option Text × World
unfolding new_chat set_in_room with_mode with_model model_shown handle_pin_model handle_unpin_model
    show_catalog with_role role_reply with_thinking with_web_search with_image_generation
    request_shutdown
handle_command others env chat_id reset_history w = new_chat others chat_id w
handle_command others env chat_id show_chat_id w =
    send_command_reply chat_id (chat_id_reply chat_id) w
handle_command others env chat_id (show_mode current) w =
    send_command_reply chat_id (codes "Mode: " ++ mode_name current) w
handle_command others env chat_id (set_mode mode) w =
    set_in_room others chat_id (with_mode mode)
      (codes "Mode set to " ++ mode_name mode ++ codes ".") w
handle_command others env chat_id (show_model selected effective pinned available) w =
    model_shown chat_id selected effective pinned available w
handle_command others env chat_id (set_model model_key) w =
    set_in_room others chat_id (with_model model_key) (model_set_reply model_key) w
handle_command others env chat_id (pin_model model_key) w =
    handle_pin_model others chat_id model_key w
handle_command others env chat_id unpin_model w = handle_unpin_model others chat_id w
handle_command others env chat_id show_model_catalog w = show_catalog others env.secrets chat_id w
handle_command others env chat_id (add_model preset_key) w =
    handle_add_model others env.secrets chat_id preset_key w
handle_command others env chat_id (show_role current) w =
    send_command_reply chat_id (codes "Role: " ++ unwrap_or current (codes "(none)")) w
handle_command others env chat_id (set_role role) w =
    set_in_room others chat_id (with_role role) (role_reply role) w
handle_command others env chat_id (show_reasoning override_level model_default) w =
    send_command_reply chat_id (format_reasoning_status override_level model_default) w
handle_command others env chat_id (set_reasoning thinking) w =
    set_in_room others chat_id (with_thinking thinking) (reasoning_set_reply thinking) w
handle_command others env chat_id (show_web_search enabled) w =
    send_command_reply chat_id (codes "Web search: " ++ on_off enabled ++ codes ".") w
handle_command others env chat_id (set_web_search enabled) w =
    set_in_room others chat_id (with_web_search enabled)
      (codes "Web search set to " ++ on_off enabled ++ codes ".") w
handle_command others env chat_id (show_image_generation enabled) w =
    send_command_reply chat_id (codes "Image generation: " ++ on_off enabled ++ codes ".") w
handle_command others env chat_id (set_image_generation enabled) w =
    set_in_room others chat_id (with_image_generation enabled)
      (codes "Image generation set to " ++ on_off enabled ++ codes ".") w
handle_command others env chat_id (allow_chat target_chat_id) w =
    handle_allow_chat others chat_id target_chat_id w
handle_command others env chat_id (deny_chat target_chat_id) w =
    handle_deny_chat others chat_id target_chat_id w
handle_command others env chat_id (pair_room code) w =
    handle_pair_attempt others env.now chat_id code none w
handle_command others env chat_id unload_ollama w =
    send_command_reply chat_id (unload_reply (unload_models env.unload_answer env.loaded_models).0)
      (others 0 w)
handle_command others env chat_id shut_down w =
    request_shutdown (send_command_reply chat_id (codes "Shutting down.") w)
handle_command others env chat_id (show_help pinned_model_key) w =
    send_command_reply chat_id (help_text pinned_model_key) w
handle_command others env chat_id (reject reason) w =
    send_command_reply chat_id (format_reject reason) w
