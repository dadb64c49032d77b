-- ===== src/Runtime/Replies.antt =====
-- src/runtime.rs: the texts that the handlers send, and src/wizard.rs: the provider catalog.
pub mod Rejects
pub mod Presets
use tellm.Base.{
  ◌++◌, Bool, true, false, Option, none, some, List, [], ◌∷◌, if◌then◌else◌, unwrap_or, Text, codes,
  I64,
}
use tellm.Base.Decimal.{i64_to_string}
use tellm.Core.{ThinkingLevel, off, low, medium, high, max}
use tellm.Rooms.{ChatMode, chat, message}
use tellm.Runtime.ConfigEdits.{DenyChatConfigResult, changed, is_empty}

-- `slice::join(", ")`
abbrev pub join : List Text → Text
join [] = []
join (t ∷ []) = t
join (t ∷ s ∷ ts) = t ++ codes ", " ++ join (s ∷ ts)

pub group_privacy_hint : I64 → Text
group_privacy_hint chat_id =
    codes "group chat detected chat_id="
    ++ i64_to_string chat_id
    ++ codes
        " action=\"if plain text is ignored, disable privacy mode with BotFather /setprivacy and re-add the bot\""

pub unknown_chat_hint : I64 → Text
unknown_chat_hint chat_id =
    codes "This bot is private. Chat id: "
    ++ i64_to_string chat_id
    ++ codes
        ". If you own it, send /pair CODE here with the code printed in the tellm terminal, or ask a registered owner to send /allow "
    ++ i64_to_string chat_id
    ++ codes " from any chat they are in."

pub mode_name : ChatMode → Text
mode_name chat = codes "chat"
mode_name message = codes "message"

-- `{:?}` of a level.
debug_level : ThinkingLevel → Text
debug_level off = codes "Off"
debug_level low = codes "Low"
debug_level medium = codes "Medium"
debug_level high = codes "High"
debug_level max = codes "Max"

pub format_reasoning_status : Option ThinkingLevel → ThinkingLevel → Text
unfolding debug_level
format_reasoning_status (some level) model_default =
    codes "Reasoning: "
    ++ debug_level level
    ++ codes " (room override; model default is "
    ++ debug_level model_default
    ++ codes ")."
format_reasoning_status none model_default =
    codes "Reasoning: " ++ debug_level model_default ++ codes " (model default)."

pub reasoning_set_reply : Option ThinkingLevel → Text
unfolding debug_level
reasoning_set_reply (some thinking) =
    codes "Reasoning set to " ++ debug_level thinking ++ codes " for this room."
reasoning_set_reply none = codes "Reasoning reset to this model's configured default."

pub format_model_status : Option Text → Text → Option Text → List Text → Text
format_model_status selected effective (some pinned) available =
    codes "Model: "
    ++ effective
    ++ codes " (pinned room: "
    ++ pinned
    ++ codes "; selected: "
    ++ unwrap_or selected (codes "(default)")
    ++ codes " ignored). Available: "
    ++ join available
    ++ codes "."
format_model_status (some selected) effective none available =
    codes "Model: " ++ effective ++ codes ". Available: " ++ join available ++ codes "."
format_model_status none effective none available =
    codes "Model: " ++ effective ++ codes " (default). Available: " ++ join available ++ codes "."

pub model_set_reply : Text → Text
model_set_reply model_key =
    codes "Model set to "
    ++ model_key
    ++ codes
        ". Chat history reset. This room now uses the model's configured reasoning default; /reasoning can override it. Owners can lock it into config.toml with /model pin "
    ++ model_key
    ++ codes "."

pub chat_id_reply : I64 → Text
chat_id_reply chat_id = codes "Chat id: " ++ i64_to_string chat_id ++ codes "."

pub format_deny_chat_reply : I64 → DenyChatConfigResult → Text
format_deny_chat_reply chat_id result =
    let denied = codes "Denied chat " ++ i64_to_string chat_id ++ codes ". Room state cleared." in
    let pins = codes " Removed model pin(s): " ++ join result.removed_model_pins ++ codes "." in
    if changed result
    then (if is_empty result.removed_model_pins then denied else denied ++ pins)
    else codes "Chat " ++ i64_to_string chat_id ++ codes " was not allowed. Room state cleared."

pub on_off : Bool → Text
on_off true = codes "on"
on_off false = codes "off"

-- A setup prompt: its text, and the keys of the model picker unless the room is pinned.
pub record RoomSetupReply : Type 0 where
  pub text : Text
  pub model_keys : Option (List Text)

setup_text : Text → Option Text → Text
setup_text model_key (some pinned) =
    codes "Room approved. This room is pinned to "
    ++ pinned
    ++ codes ". Use /model unpin before switching models."
setup_text model_key none =
    codes "Room approved. Current model: "
    ++ model_key
    ++ codes
        ". Pick a model below, lock it with /model pin KEY, add providers with /model add, or just start chatting."

owner_text : Bool → Text
owner_text true =
    codes
      "\n\nYou are registered as this bot's owner: /allow, /deny, /shutdown, and /model pin work for you from any chat, and rooms you add the bot to are approved automatically."
owner_text false = []

picker_keys : Option Text → List Text → Option (List Text)
picker_keys (some pinned) available = none
picker_keys none available = some available

pub build_room_setup_reply : Text → Option Text → List Text → Bool → RoomSetupReply
unfolding setup_text owner_text picker_keys
build_room_setup_reply model_key pinned available became_owner = record {
  text = setup_text model_key pinned ++ owner_text became_owner;
  model_keys = picker_keys pinned available;
}
