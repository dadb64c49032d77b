-- ===== src/Config.antt =====
-- crates/tellm-config/src/lib.rs: the configuration that the other parts read.
pub mod Validate
use tellm.Base.{[], ◌∷◌, ◌++◌, Text, Bool, Option, List, I64}
use tellm.Core.{ThinkingLevel}

pub data WireFormat : Type 0 where
  anthropic responses compat gemini : WireFormat

pub record ModelConfig : Type 0 where
  pub wire_format : WireFormat
  pub model_name : Text
  pub base_url : Option Text
  pub allow_insecure_http : Bool
  pub api_key_secret : Option Text
  pub telegram_chat_ids : List I64
  pub thinking : ThinkingLevel

pub record TelegramConfig : Type 0 where
  pub allowed_chat_ids : List I64
  pub owner_user_ids : List I64

-- `models` is a `BTreeMap`, in the order of its keys.
pub record Config : Type 0 where
  pub default_model : Text
  pub models : List (Text × ModelConfig)
  pub telegram : TelegramConfig

-- The chats that the models pin, model after model.
abbrev pub pins : List (Text × ModelConfig) → List I64
pins [] = []
pins ((key, model) ∷ models) = model.telegram_chat_ids ++ pins models
