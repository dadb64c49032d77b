-- ===== src/Turn.antt =====
-- src/model_turn.rs: the request that a room's turn sends to a provider.
pub mod Input
pub mod Exchange
mod Examples
use tellm.Base.{
  ℕ, Bool, true, false, Option, none, some, List, [], ◌∷◌, ◌++◌, Text, codes, if◌then◌else◌, ◌||◌,
  unwrap_or,
}
use tellm.Core.{ContentPart, ChatRequest, Value}
use tellm.Config.{WireFormat, anthropic, responses, compat, gemini, ModelConfig}
use tellm.Rooms.{
  RoomState, ChatMode, chat, message, HistoryReset, unchanged, wire_format_changed,
  FailedTurnRollback, TurnStart, begin_turn, same_format,
}
use tellm.Telegram.Strings.{find}

pub record PreparedChatRequest : Type 0 where
  pub model_config : ModelConfig
  pub request : ChatRequest
  pub rollback : Option FailedTurnRollback
  pub generation : ℕ
  pub reset_notice : Option Text

pub history_of_mode : ChatMode → List Value → List Value
history_of_mode chat history = history
history_of_mode message history = []

pub chat_request_from_room : RoomState → ModelConfig → List ContentPart → ChatRequest
unfolding history_of_mode
chat_request_from_room room model_config input = record {
  model = model_config.model_name;
  system = room.settings.role;
  history = history_of_mode room.settings.mode room.history;
  input = input;
  thinking = unwrap_or room.settings.thinking model_config.thinking;
  web_search = room.settings.web_search;
  image_generation = room.settings.image_generation;
}

-- `{:?}` of a wire format.
debug_name : WireFormat → Text
debug_name anthropic = codes "Anthropic"
debug_name responses = codes "Responses"
debug_name compat = codes "Compat"
debug_name gemini = codes "Gemini"

pub reset_notice_of : HistoryReset → Option Text
unfolding debug_name
reset_notice_of unchanged = none
reset_notice_of (wire_format_changed none new) = none
reset_notice_of (wire_format_changed (some previous) new) =
    if same_format previous new
    then none
    else some (
        codes "Provider wire format changed from "
        ++ debug_name previous
        ++ codes " to "
        ++ debug_name new
        ++ codes "; chat history reset.")

pub prepare_chat_request :
    ModelConfig → List ContentPart → RoomState → PreparedChatRequest × RoomState
unfolding begin_turn chat_request_from_room reset_notice_of
prepare_chat_request model_config input room =
    let (start, room') = begin_turn model_config.wire_format room in
    (
      record {
        model_config = model_config;
        request = chat_request_from_room room' model_config input;
        rollback = start.rollback;
        generation = room'.generation;
        reset_notice = reset_notice_of start.reset;
      },
      room',
    )
