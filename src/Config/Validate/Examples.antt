-- ===== src/Config/Validate/Examples.antt =====
-- A local model without a secret, and a hosted one.
use tellm.Base.{
  ◌≡◌, refl, Option, none, some, List, [], ◌∷◌, All, Text, codes, text_eq, false, if◌then◌else◌,
}
use tellm.Core.{medium}
use tellm.Config.{ModelConfig, Config, TelegramConfig, pins, compat, anthropic}
use tellm.Config.Validate.{Url, domain, validate, insecure_credentials}
use tellm.Config.Validate.Safety.{IsSafe, validate-IsSafe}
use tellm.Config.Validate.Pins.{IsPinnedOnce, validate-IsPinnedOnce}

abbrev local_url : Url
local_url = record {
  username = [];
  password = none;
  scheme = codes "http";
  host = some (domain (codes "localhost"));
}

-- A parser that knows one URL.
abbrev parse_url : Text → Option Url
parse_url base_url = if text_eq base_url (codes "http://localhost/v1") then some local_url else none

abbrev local : ModelConfig
local = record {
  wire_format = compat;
  model_name = codes "llama";
  base_url = some (codes "http://localhost/v1");
  allow_insecure_http = false;
  api_key_secret = none;
  telegram_chat_ids = 7 ∷ [];
  thinking = medium;
}

abbrev hosted : ModelConfig
hosted = record local {
  wire_format = anthropic;
  base_url = none;
  api_key_secret = some (codes "key");
  telegram_chat_ids = 8 ∷ [];
}

abbrev nobody : TelegramConfig
nobody = record { allowed_chat_ids = []; owner_user_ids = [] }

abbrev config : Config
config = record {
  default_model = codes "a";
  models = (codes "a", hosted) ∷ (codes "b", local) ∷ [];
  telegram = nobody;
}

valid : validate parse_url config ≡ []
unfolding validate text_eq tellm.Base.eq_ignore_ascii_case tellm.Base.to_ascii_lowercase
    tellm.Base.IdMap.get tellm.Base.IdMap.insert
valid = refl

validate-IsSafe_example : All (IsSafe parse_url) config.models
validate-IsSafe_example = validate-IsSafe parse_url config valid

validate-IsPinnedOnce_example : IsPinnedOnce (pins config.models)
validate-IsPinnedOnce_example = validate-IsPinnedOnce parse_url config valid

-- The hosted model's key is not sent over HTTP, even to this host.
refused_test :
    validate parse_url (record {
      default_model = codes "a";
      models = (codes "a", record hosted { base_url = local.base_url }) ∷ [];
      telegram = nobody;
    })
    ≡ insecure_credentials (codes "a") ∷ []
unfolding validate text_eq tellm.Base.IdMap.get
refused_test = refl
