-- ===== src/Runtime/Routing.antt =====
-- src/runtime.rs, `route_command` and `room_capabilities`: what a message's text is to its room.
pub mod Checked
use tellm.Base.{
  ℕ, ◌<◌, Bool, true, false, not, ◌||◌, Option, none, some, List, [], ◌∷◌, take, is_some, ltb,
  if◌then◌else◌, unwrap_or, eq_ignore_ascii_case, to_ascii_lowercase, Text, codes, I64, ◌^◌,
}
use tellm.Base.IdMap.{map_option}
use tellm.Core.{ThinkingLevel, medium}
use tellm.Config.{Config, WireFormat, anthropic, responses, compat, gemini, ModelConfig}
use tellm.Rooms.{RoomState}
use tellm.Rooms.Table
use tellm.Access.{AccessTime, check_privileged}
use tellm.Commands.{
  RoomCapabilities, permissive, CommandContext, ParsedRoute, KnownCommand, command, user_message,
  ignore, CommandAction, parse, resolve,
}
use tellm.Telegram.Strings.{find}
use tellm.Runtime.ConfigEdits.{get_model, model_keys, selected_model_key, pinned_model_key}
use tellm.Runtime.World.{World, Others, from, chat_is_allowed}

-- `url.contains(pattern)`, for a URL that may be missing.
url_contains : Text → Option Text → Bool
url_contains pattern none = false
url_contains pattern (some url) = is_some (find pattern url)

-- `model_name.get(..n)` compared with an ASCII text of `n` characters.
starts_with_ignoring_case : ℕ → Text → Text → Bool
starts_with_ignoring_case n prefix model_name = eq_ignore_ascii_case (take n model_name) prefix

unfoldable pub is_xai_endpoint : Option Text → Text → Bool
unfolding url_contains starts_with_ignoring_case
is_xai_endpoint base_url model_name =
    url_contains (codes "api.x.ai") base_url
    || starts_with_ignoring_case 5 (codes "grok-") model_name

unfoldable pub is_meta_model_api_endpoint : Option Text → Text → Bool
unfolding url_contains starts_with_ignoring_case
is_meta_model_api_endpoint base_url model_name =
    url_contains (codes "api.meta.ai") base_url
    || starts_with_ignoring_case 10 (codes "muse-spark") model_name

unfoldable pub is_image_generation_model : Text → Bool
is_image_generation_model model_name =
    is_some (find (codes "-image") (to_ascii_lowercase model_name))

capable : Bool → Bool → Text → Text → RoomCapabilities
capable web_search image_generation endpoint model_key = record {
  web_search = web_search;
  image_generation = image_generation;
  model_key = model_key;
  endpoint = endpoint;
}

model_capabilities : Text → ModelConfig → WireFormat → RoomCapabilities
unfolding capable
model_capabilities key model anthropic = capable true false (codes "Anthropic Messages") key
model_capabilities key model responses =
    if is_xai_endpoint model.base_url model.model_name
    then capable true false (codes "xAI Responses") key
    else if is_meta_model_api_endpoint model.base_url model.model_name
    then capable true false (codes "Meta Model API Responses") key
    else capable true true (codes "OpenAI Responses") key
model_capabilities key model compat = capable false false (codes "chat-completions endpoint") key
model_capabilities key model gemini =
    capable true (is_image_generation_model model.model_name) (codes "Gemini Interactions") key

capabilities_of : Text → Option ModelConfig → RoomCapabilities
unfolding model_capabilities
capabilities_of key none = permissive
capabilities_of key (some model) = model_capabilities key model model.wire_format

unfoldable pub room_capabilities : Config → RoomState → I64 → RoomCapabilities
unfolding capabilities_of
room_capabilities config room chat_id =
    let model_key = selected_model_key config room chat_id in
    capabilities_of model_key (get_model model_key config.models)

thinking_of : Option ModelConfig → ThinkingLevel
thinking_of none = medium
thinking_of (some model) = model.thinking

-- What a message is: a command's action, input for the model, or nothing. `panicked` is the
-- `unreachable!` of `resolve`.
pub data Route : Type 0 where
  command_route : CommandAction → Route
  user_message_route ignore_route panicked : Route

-- The context of a command, and the world with the chat's room.
context : I64 → Option I64 → ℕ → AccessTime → World → World → CommandContext
unfolding thinking_of
context chat_id sender date now at_check w =
    let room = (Table.get_or_default chat_id w.rooms).0 in
    let model_key = selected_model_key w.config room chat_id in
    record {
      settings = room.settings;
      default_model = w.config.default_model;
      model_keys = model_keys w.config.models;
      pinned_model_key = pinned_model_key w.config chat_id;
      model_thinking = thinking_of (get_model model_key w.config.models);
      privileged_access = check_privileged sender date now at_check.access;
      capabilities = room_capabilities w.config room chat_id;
    }

route_of : Option CommandAction → Route
route_of none = panicked
route_of (some action) = command_route action

-- `u64::try_from(date).unwrap_or_default()` of an `i64`.
message_seconds : I64 → ℕ
message_seconds date = if ltb date (2 ^ 63) then date else 0

parsed :
    Others
    → AccessTime
    → I64
    → I64
    → Option I64
    → World
    → ParsedRoute
    → (Option Text × Route) × World
unfolding context route_of message_seconds
parsed others now chat_id date sender w user_message = ((none, user_message_route), w)
parsed others now chat_id date sender w ignore = ((none, ignore_route), w)
parsed others now chat_id date sender w (command c args) =
    let w1 = others 0 w in
    let w2 = others 1 w1 in
    (
      (none, route_of (resolve c args (context chat_id sender (message_seconds date) now w1 w2))),
      record w2 { rooms = (Table.get_or_default chat_id w2.rooms).1 },
    )

-- The error is the text of a chat that was denied by then; its route does not count.
unfoldable pub route_command :
    Others
    → AccessTime
    → Option Text
    → I64
    → Text
    → I64
    → Option I64
    → World
    → (Option Text × Route) × World
unfolding parsed
route_command others now bot_username chat_id text date sender w =
    let w0 = others 0 w in
    if chat_is_allowed chat_id w0
    then parsed (from 1 others) now chat_id date sender w0 (parse text bot_username)
    else ((some (codes "chat access was revoked"), ignore_route), w0)
