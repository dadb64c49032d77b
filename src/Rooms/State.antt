-- ===== src/Rooms/State.antt =====
-- src/rooms.rs: the limits and the types of rooms.
use tellm.Base.{ℕ, ◌*◌, Bool, true, false, Option, none, List, Text}
use tellm.Core.{Value, ThinkingLevel}
use tellm.Config.{WireFormat, anthropic, responses, compat, gemini}

abbrev pub max_history_turns : ℕ
max_history_turns = 32

abbrev pub max_history_bytes : ℕ
max_history_bytes = 4 * 1024 * 1024

pub data ChatMode : Type 0 where
  chat message : ChatMode

pub record RoomSettings : Type 0 where
  pub model_key : Option Text
  pub mode : ChatMode
  pub role : Option Text
  pub thinking : Option ThinkingLevel
  pub web_search : Bool
  pub image_generation : Bool

abbrev pub default_settings : RoomSettings
default_settings = record {
  model_key = none;
  mode = chat;
  role = none;
  thinking = none;
  web_search = false;
  image_generation = false;
}

pub record HistoryTurn : Type 0 where
  pub item_count : ℕ
  pub approx_bytes : ℕ

pub record RoomState : Type 0 where
  pub settings : RoomSettings
  pub wire_format : Option WireFormat
  pub history : List Value
  pub history_turns : List HistoryTurn
  pub generation : ℕ

pub data HistoryReset : Type 0 where
  unchanged : HistoryReset
  wire_format_changed : Option WireFormat → WireFormat → HistoryReset

pub record FailedTurnRollback : Type 0 where
  pub wire_format : Option WireFormat
  pub history : List Value
  pub history_turns : List HistoryTurn

pub record TurnStart : Type 0 where
  pub reset : HistoryReset
  pub rollback : Option FailedTurnRollback

-- `==` of wire formats.
abbrev pub same_format : WireFormat → WireFormat → Bool
same_format anthropic anthropic = true
same_format responses responses = true
same_format compat compat = true
same_format gemini gemini = true
same_format _ _ = false
