-- ===== src/Commands/Types.antt =====
-- src/commands.rs: commands, actions, and what a command is resolved against.
use tellm.Base.{Bool, true, Option, List, [], Text, I64}
use tellm.Core.{ThinkingLevel}
use tellm.Access.{PrivilegedAccess}
use tellm.Rooms.{RoomSettings, ChatMode}

-- What the room's effective model can do.
pub record RoomCapabilities : Type 0 where
  pub web_search : Bool
  pub image_generation : Bool
  pub model_key : Text
  pub endpoint : Text

-- Where no model can be resolved.
abbrev pub permissive : RoomCapabilities
permissive = record { web_search = true; image_generation = true; model_key = []; endpoint = [] }

-- The set of model keys is the list of its elements, each once and in order.
pub record CommandContext : Type 0 where
  pub settings : RoomSettings
  pub default_model : Text
  pub model_keys : List Text
  pub pinned_model_key : Option Text
  pub model_thinking : ThinkingLevel
  pub privileged_access : PrivilegedAccess
  pub capabilities : RoomCapabilities

pub data KnownCommand : Type 0 where
  new id mode model role reasoning web_search image_generation : KnownCommand
  allow deny pair ollama shutdown help : KnownCommand

pub data ParsedRoute : Type 0 where
  command : KnownCommand → Text → ParsedRoute
  user_message ignore : ParsedRoute

-- The fields of a struct variant stand in the order of the source.
pub data CommandReject : Type 0 where
  missing_pairing_code : CommandReject
  unknown_mode : Text → CommandReject
  unknown_model : Text → List Text → CommandReject
  unknown_reasoning unknown_boolean : Text → CommandReject
  missing_chat_id : KnownCommand → CommandReject
  invalid_chat_id : Text → CommandReject
  unknown_ollama_action : Option Text → CommandReject
  pinned_model : Text → CommandReject
  owner_not_allowed owner_stale shutdown_not_owner shutdown_stale : CommandReject
  capability_unsupported : Text → Text → Text → CommandReject

pub data CommandAction : Type 0 where
  reset_history show_chat_id : CommandAction
  show_mode set_mode : ChatMode → CommandAction
  show_model : Option Text → Text → Option Text → List Text → CommandAction
  set_model pin_model : Text → CommandAction
  unpin_model show_model_catalog : CommandAction
  add_model : Text → CommandAction
  show_role set_role : Option Text → CommandAction
  show_reasoning : Option ThinkingLevel → ThinkingLevel → CommandAction
  set_reasoning : Option ThinkingLevel → CommandAction
  show_web_search set_web_search : Bool → CommandAction
  show_image_generation set_image_generation : Bool → CommandAction
  allow_chat deny_chat : I64 → CommandAction
  pair_room : Text → CommandAction
  unload_ollama shut_down : CommandAction
  show_help : Option Text → CommandAction
  reject : CommandReject → CommandAction
