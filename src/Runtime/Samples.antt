-- ===== src/Runtime/Samples.antt =====
-- A small world to run the handlers on: one model, chat 5 is allowed, and user 9 is an owner.
use tellm.Base.{ℕ, true, false, none, some, [], ◌∷◌, Text, codes, I64}
use tellm.Core.{medium}
use tellm.Config.{Config, ModelConfig, anthropic}
use tellm.Access.{new_with_generator, from_config}
use tellm.Telegram.Message.{IncomingMessage}
use tellm.Persistence.{Writer}
use tellm.Runtime.World.{World}

abbrev pub sample_model : ModelConfig
sample_model = record {
  wire_format = anthropic;
  model_name = codes "claude";
  base_url = none;
  allow_insecure_http = false;
  api_key_secret = none;
  telegram_chat_ids = [];
  thinking = medium;
}

abbrev pub sample_config : Config
sample_config = record {
  default_model = codes "claude";
  models = (codes "claude", sample_model) ∷ [];
  telegram = record { allowed_chat_ids = 5 ∷ []; owner_user_ids = 9 ∷ [] };
}

abbrev pub sample_generator : ℕ → Text
sample_generator n = codes "123456"

abbrev pub sample_writer : Writer Config
sample_writer = record {
  running = true;
  outcomes = λ n. none;
  writes = 0;
  config_file = some sample_config;
  rooms_file = none;
}

abbrev pub sample_world : World
sample_world = record {
  config = sample_config;
  rooms = record { rooms = [] };
  access = new_with_generator (from_config sample_config) sample_generator;
  writer = sample_writer;
  workers = record {
    dispatchers = [];
    registered = [];
    cancelled = [];
    aborted = [];
    next_worker_id = 1;
    notices = [];
  };
  telegram = record { answers = λ n. none; requests = [] };
  terminal_prompt = none;
  shutdown_requested = false;
}

-- A text that user 9 sends in a chat.
abbrev pub sample_message : I64 → Text → IncomingMessage
sample_message chat_id text = record {
  chat = record { id = chat_id; title = none };
  from = some (record { id = 9; is_bot = false; first_name = []; username = none });
  date = 1000;
  text = some text;
  caption = none;
  photo = none;
  document = none;
}
