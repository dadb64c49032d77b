-- ===== src/Runtime/Replies/Presets.antt =====
-- src/wizard.rs, the provider catalog, and the texts of src/runtime.rs for adding a model from it.
use tellm.Base.{
  ◌++◌, Bool, true, false, Option, none, some, List, [], ◌∷◌, if◌then◌else◌, Text, codes,
  eq_ignore_ascii_case, is_one_of, text_lt,
}
use tellm.Core.{medium}
use tellm.Config.{WireFormat, anthropic, responses, gemini, ModelConfig}
use tellm.Runtime.ConfigEdits.{Models}

pub record ProviderPreset : Type 0 where
  pub key : Text
  pub label : Text
  pub wire_format : WireFormat
  pub model_name : Text
  pub base_url : Option Text
  pub api_key_secret : Text

abbrev pub provider_presets : List ProviderPreset
provider_presets =
    record {
      key = codes "anthropic";
      label = codes "Anthropic Claude Opus 5";
      wire_format = anthropic;
      model_name = codes "claude-opus-5";
      base_url = none;
      api_key_secret = codes "anthropic_api_key";
    }
    ∷ record {
      key = codes "openai";
      label = codes "OpenAI GPT-5.6 Sol";
      wire_format = responses;
      model_name = codes "gpt-5.6-sol";
      base_url = none;
      api_key_secret = codes "openai_api_key";
    }
    ∷ record {
      key = codes "xai";
      label = codes "xAI Grok 4.5";
      wire_format = responses;
      model_name = codes "grok-4.5";
      base_url = some (codes "https://api.x.ai/v1");
      api_key_secret = codes "xai_api_key";
    }
    ∷ record {
      key = codes "meta";
      label = codes "Meta Muse Spark 1.1";
      wire_format = responses;
      model_name = codes "muse-spark-1.1";
      base_url = some (codes "https://api.meta.ai/v1");
      api_key_secret = codes "meta_model_api_key";
    }
    ∷ record {
      key = codes "gemini";
      label = codes "Google Gemini 3.6 Flash";
      wire_format = gemini;
      model_name = codes "gemini-3.6-flash";
      base_url = none;
      api_key_secret = codes "gemini_api_key";
    }
    ∷ []

find_preset : Text → List ProviderPreset → Option ProviderPreset
find_preset key [] = none
find_preset key (preset ∷ presets) =
    if eq_ignore_ascii_case preset.key key then some preset else find_preset key presets

pub preset_by_key : Text → Option ProviderPreset
unfolding find_preset
preset_by_key key = find_preset key provider_presets

unfoldable pub model_config_from_preset : ProviderPreset → ModelConfig
model_config_from_preset preset = record {
  wire_format = preset.wire_format;
  model_name = preset.model_name;
  base_url = preset.base_url;
  allow_insecure_http = false;
  api_key_secret = some preset.api_key_secret;
  telegram_chat_ids = [];
  thinking = medium;
}

-- `config.models.insert` of a key that is not there.
unfoldable pub insert_model : Text → ModelConfig → Models → Models
unfolding text_lt
insert_model key model [] = (key, model) ∷ []
insert_model key model ((k, m) ∷ models) =
    let rest = insert_model key model models in
    if text_lt key k then (key, model) ∷ (k, m) ∷ models else (k, m) ∷ rest

-- `secrets::get` answers whether a secret has a value.
preset_status : List Text → (Text → Bool) → ProviderPreset → Text
preset_status configured has_secret preset =
    if is_one_of configured preset.key
    then codes "configured"
    else if has_secret preset.api_key_secret
    then codes "key ready"
    else codes "needs key"

catalog_lines : List Text → (Text → Bool) → List ProviderPreset → Text
unfolding preset_status
catalog_lines configured has_secret [] = []
catalog_lines configured has_secret (preset ∷ presets) =
    codes "- /model add "
    ++ preset.key
    ++ codes " — "
    ++ preset.label
    ++ codes " ("
    ++ preset_status configured has_secret preset
    ++ codes ")\n"
    ++ catalog_lines configured has_secret presets

pub model_catalog_reply : List Text → (Text → Bool) → Text
unfolding catalog_lines
model_catalog_reply configured has_secret =
    codes "Provider catalog:\n\n"
    ++ catalog_lines configured has_secret provider_presets
    ++ codes
        "\nUse /model add KEY to add a preset, or to enter the api_key_secret for a custom model already in config.toml. If its key is missing, tellm asks for it in this terminal."

pub model_add_base_reply : Bool → ProviderPreset → Text
model_add_base_reply true preset = preset.key ++ codes " is already configured."
model_add_base_reply false preset =
    codes "Added " ++ preset.key ++ codes " (" ++ preset.label ++ codes ")."

pub configured_model_base_reply : Text → Text
configured_model_base_reply model_key = model_key ++ codes " is already configured."

pub configured_model_has_no_secret_reply : Text → Text
configured_model_has_no_secret_reply model_key =
    model_key
    ++ codes " is already configured with no API key prompt. Select it here with /model "
    ++ model_key
    ++ codes ". If this endpoint needs a key, add api_key_secret = \"...\" under [models."
    ++ model_key
    ++ codes "] in config.toml."

pub model_key_ready_reply : Text → Text → Text
model_key_ready_reply base_reply model_key =
    base_reply ++ codes "\n\nAPI key found. Select it here with /model " ++ model_key ++ codes "."

pub model_key_prompt_reply : Text → Text → Text
model_key_prompt_reply base_reply secret_name =
    base_reply
    ++ codes "\n\nAPI key missing. A terminal prompt is waiting for "
    ++ secret_name
    ++ codes
        ". Enter it there; it is visible locally and never goes through Telegram. Press Enter there to skip."

-- `SecretDestination` and its `location_label`.
pub data SecretDestination : Type 0 where
  os_keychain credentials_file : SecretDestination

location_label : SecretDestination → Text
location_label os_keychain = codes "the OS keychain"
location_label credentials_file = codes "credentials.toml (0600)"

pub model_key_stored_reply : Text → SecretDestination → Text
unfolding location_label
model_key_stored_reply model_key destination =
    model_key
    ++ codes " key stored in "
    ++ location_label destination
    ++ codes ". Select it here with /model "
    ++ model_key
    ++ codes "."

pub model_key_skipped_reply : Text → Text
model_key_skipped_reply model_key =
    codes "No key stored for "
    ++ model_key
    ++ codes ". Run /model add "
    ++ model_key
    ++ codes " again when you're ready to enter it in the tellm terminal."

pub model_key_prompt_failed_reply : Text → Text → Text → Text
model_key_prompt_failed_reply model_key secret_name error =
    codes "Could not complete the terminal prompt for "
    ++ model_key
    ++ codes ": "
    ++ error
    ++ codes ". Fallback: run tellm secret set "
    ++ secret_name
    ++ codes " in the tellm console."
