-- ===== src/Runtime/Prompt.antt =====
-- src/runtime.rs: `/model add`, and the terminal prompt for a missing key.
pub mod Agreement
use tellm.Base.{
  ℕ, Bool, true, false, Option, none, some, List, [], ◌∷◌, ◌++◌, is_some, if◌then◌else◌, Text,
  codes, I64, trim, to_ascii_lowercase, is_one_of, text_eq,
}
use tellm.Config.{Config, ModelConfig}
use tellm.Runtime.ConfigEdits.{get_model, model_keys, configured_model_key}
use tellm.Runtime.Replies.Presets.{
  ProviderPreset, preset_by_key, model_config_from_preset, insert_model, model_catalog_reply,
  model_add_base_reply, configured_model_base_reply, configured_model_has_no_secret_reply,
  model_key_ready_reply, model_key_prompt_reply, SecretDestination, model_key_stored_reply,
  model_key_skipped_reply, model_key_prompt_failed_reply,
}
use tellm.Runtime.World.{World, Others, from, save_or_restore, send_command_reply}

-- What a prompt meets: a line of the terminal, its end, or the end of its time.
pub data PromptInput : Type 0 where
  line : Text → PromptInput
  input_closed expired : PromptInput

-- The answer of `secrets::set_nonempty`.
pub data SecretStore : Type 0 where
  stored_in : SecretDestination → SecretStore
  store_error : Text → SecretStore

-- The secrets, and the terminal's input to the next prompt; input that ends is closed.
pub record Secrets : Type 0 where
  pub has_secret : Text → Bool
  pub set_nonempty : Text → Text → SecretStore
  pub terminal : List PromptInput

pub data PromptedSecret : Type 0 where
  stored : SecretDestination → PromptedSecret
  skipped retry : PromptedSecret
  failed : Text → PromptedSecret

unfoldable pub is_terminal_command_word : Text → Bool
is_terminal_command_word value =
    is_one_of (codes "reset" ∷ codes "exit" ∷ codes "quit" ∷ []) (to_ascii_lowercase (trim value))

store_answer : SecretStore → PromptedSecret
store_answer (stored_in destination) = stored destination
store_answer (store_error error) = failed error

unfoldable pub store_prompted_secret : Secrets → Text → Text → PromptedSecret
unfolding store_answer
store_prompted_secret secrets secret_name input =
    let value = trim input in
    if text_eq value []
    then skipped
    else if is_terminal_command_word value
    then retry
    else store_answer (secrets.set_nonempty secret_name value)

-- The loop of `prompt_and_store_secret` over the terminal's lines.
again : PromptedSecret → PromptedSecret → PromptedSecret
again retry rest = rest
again (stored destination) rest = stored destination
again skipped rest = skipped
again (failed error) rest = failed error

unfoldable pub prompt_loop : Secrets → Text → List PromptInput → PromptedSecret
unfolding again
prompt_loop secrets secret_name [] =
    failed (codes "terminal input closed before a value was entered")
prompt_loop secrets secret_name (input_closed ∷ inputs) =
    failed (codes "terminal input closed before a value was entered")
prompt_loop secrets secret_name (expired ∷ inputs) =
    failed (codes "terminal prompt expired; run /model add again")
prompt_loop secrets secret_name (line text ∷ inputs) =
    again (store_prompted_secret secrets secret_name text) (prompt_loop secrets secret_name inputs)

-- `reserve_terminal_secret_prompt`
reserve_terminal_secret_prompt : Text → World → Option Text × World
reserve_terminal_secret_prompt secret_name w =
    if is_some w.terminal_prompt
    then (some (codes "another terminal prompt is already waiting; complete it first"), w)
    else (none, record w { terminal_prompt = some secret_name })

waits_for : Option Text → Text → Bool
waits_for none secret_name = false
waits_for (some name) secret_name = text_eq name secret_name

-- `TerminalPromptGuard`, at the end of a prompt.
unfoldable pub clear_terminal_secret_prompt : Text → World → World
unfolding waits_for
clear_terminal_secret_prompt secret_name w =
    if waits_for w.terminal_prompt secret_name then record w { terminal_prompt = none } else w

notified : Others → Secrets → Text → Option Text × World → PromptedSecret × World
notified others secrets secret_name (some error, w) =
    (failed error, clear_terminal_secret_prompt secret_name w)
notified others secrets secret_name (none, w) = (
  prompt_loop secrets secret_name secrets.terminal,
  clear_terminal_secret_prompt secret_name (others 0 w),
)

reserved : Others → Secrets → I64 → Text → Text → Option Text × World → PromptedSecret × World
unfolding notified
reserved others secrets chat_id notice secret_name (some error, w) = (failed error, w)
reserved others secrets chat_id notice secret_name (none, w) =
    notified (from 1 others) secrets secret_name (send_command_reply chat_id notice (others 0 w))

-- The error is `failed`; the answer is never `retry`.
unfoldable pub prompt_and_store_secret :
    Others → Secrets → I64 → Text → Text → World → PromptedSecret × World
unfolding reserve_terminal_secret_prompt reserved
prompt_and_store_secret others secrets chat_id notice secret_name w =
    reserved others secrets chat_id notice secret_name
      (reserve_terminal_secret_prompt secret_name w)

prompt_reply : Text → Text → PromptedSecret → Text
prompt_reply model_key secret_name (stored destination) =
    model_key_stored_reply model_key destination
prompt_reply model_key secret_name skipped = model_key_skipped_reply model_key
prompt_reply model_key secret_name retry = model_key_skipped_reply model_key
prompt_reply model_key secret_name (failed error) =
    model_key_prompt_failed_reply model_key secret_name error

unfoldable pub prompt_for_model_secret :
    Others → Secrets → I64 → Text → Text → Text → World → Option Text × World
unfolding prompt_reply
prompt_for_model_secret others secrets chat_id model_key secret_name base_reply w =
    let (answer, w') =
      prompt_and_store_secret others secrets chat_id (model_key_prompt_reply base_reply secret_name)
        secret_name w in
    send_command_reply chat_id (prompt_reply model_key secret_name answer) w'

key_reply : Others → Secrets → I64 → Text → Text → Text → World → Option Text × World
unfolding prompt_for_model_secret
key_reply others secrets chat_id model_key secret_name base_reply w =
    if secrets.has_secret secret_name
    then send_command_reply chat_id (model_key_ready_reply base_reply model_key) w
    else prompt_for_model_secret others secrets chat_id model_key secret_name base_reply w

secret_reply : Others → Secrets → I64 → Text → Option (Option Text) → World → Option Text × World
unfolding key_reply
secret_reply others secrets chat_id model_key (some (some secret_name)) w =
    key_reply others secrets chat_id model_key secret_name (configured_model_base_reply model_key) w
secret_reply others secrets chat_id model_key (some none) w =
    send_command_reply chat_id (configured_model_has_no_secret_reply model_key) w
secret_reply others secrets chat_id model_key none w =
    let w' = others 0 w in
    send_command_reply chat_id
      (codes "Unknown provider preset or configured model \""
        ++ model_key
        ++ codes "\".\n\n"
        ++ model_catalog_reply (model_keys w'.config.models) secrets.has_secret)
      w'

secret_of : Option ModelConfig → Option (Option Text)
secret_of none = none
secret_of (some model) = some model.api_key_secret

unfoldable pub handle_configured_model_secret :
    Others → Secrets → I64 → Text → World → Option Text × World
unfolding secret_reply secret_of
handle_configured_model_secret others secrets chat_id model_key w =
    let w0 = others 0 w in
    secret_reply (from 1 others) secrets chat_id model_key
      (secret_of (get_model model_key w0.config.models)) w0

-- The configuration gets a model for a preset whose key it does not have.
add_preset : Others → ProviderPreset → World → (Bool × Option Text) × World
add_preset others preset w =
    let w0 = others 0 w in
    let config : Config = record w0.config {
      models = insert_model preset.key (model_config_from_preset preset) w0.config.models;
    } in
    let (result, w1) = save_or_restore (others 1) w0.config (record w0 { config = config }) in
    if is_some (get_model preset.key w0.config.models)
    then ((true, none), w0)
    else ((false, result), w1)

preset_added :
    Others → Secrets → I64 → ProviderPreset → (Bool × Option Text) × World → Option Text × World
unfolding key_reply
preset_added others secrets chat_id preset ((already, some error), w) =
    (some (codes "failed to persist added model: " ++ error), w)
preset_added others secrets chat_id preset ((already, none), w) =
    key_reply others secrets chat_id preset.key preset.api_key_secret
      (model_add_base_reply already preset) w

add_by_preset : Others → Secrets → I64 → Text → Option ProviderPreset → World → Option Text × World
unfolding add_preset preset_added
add_by_preset others secrets chat_id preset_key none w =
    handle_configured_model_secret others secrets chat_id preset_key w
add_by_preset others secrets chat_id preset_key (some preset) w =
    preset_added (from 2 others) secrets chat_id preset (add_preset others preset w)

add_by_key : Others → Secrets → I64 → Text → Option Text → World → Option Text × World
unfolding add_by_preset
add_by_key others secrets chat_id preset_key (some model_key) w =
    handle_configured_model_secret others secrets chat_id model_key w
add_by_key others secrets chat_id preset_key none w =
    add_by_preset others secrets chat_id preset_key (preset_by_key preset_key) w

-- `CommandAction::AddModel`
unfoldable pub handle_add_model : Others → Secrets → I64 → Text → World → Option Text × World
unfolding add_by_key
handle_add_model others secrets chat_id preset_key w =
    let w0 = others 0 w in
    add_by_key (from 1 others) secrets chat_id preset_key
      (configured_model_key w0.config preset_key) w0
