-- ===== src/Runtime/ConfigEdits.antt =====
-- src/runtime.rs: how the handlers read and change the configuration. A change returns what the
-- handler learns from it beside the new configuration.
pub mod Configured
use tellm.Base.{
  ◌++◌, Bool, true, false, not, ◌&&◌, ◌||◌, Option, none, some, List, [], ◌∷◌, length, ◌==◌,
  if◌then◌else◌, or_else, unwrap_or, Text, I64, text_eq, eq_ignore_ascii_case, is_one_of,
}
use tellm.Base.IdSet
use tellm.Config.{Config, ModelConfig, TelegramConfig}
use tellm.Rooms.{RoomState}

-- `BTreeMap<String, ModelConfig>`, in the order of its keys.
abbrev pub Models : Type 0
Models = List (Text × ModelConfig)

-- `config.models.get(key)`
unfoldable pub get_model : Text → Models → Option ModelConfig
get_model key [] = none
get_model key ((k, model) ∷ models) = if text_eq k key then some model else get_model key models

-- `config.models.keys()`
unfoldable pub model_keys : Models → List Text
model_keys [] = []
model_keys ((k, model) ∷ models) = k ∷ model_keys models

with_allowed : List I64 → Config → Config
with_allowed ids config = record config {
  telegram = record { allowed_chat_ids = ids; owner_user_ids = config.telegram.owner_user_ids };
}

with_owners : List I64 → Config → Config
with_owners ids config = record config {
  telegram = record { allowed_chat_ids = config.telegram.allowed_chat_ids; owner_user_ids = ids };
}

unfoldable pub allow_chat_in_config : I64 → Config → Bool × Config
unfolding with_allowed
allow_chat_in_config chat_id config =
    if IdSet.contains chat_id config.telegram.allowed_chat_ids
    then (false, config)
    else (true, with_allowed (config.telegram.allowed_chat_ids ++ chat_id ∷ []) config)

pub record DenyChatConfigResult : Type 0 where
  pub allowed_removed : Bool
  pub removed_model_pins : List Text

unfoldable pub is_empty : List Text → Bool
is_empty [] = true
is_empty (t ∷ ts) = false

unfoldable pub changed : DenyChatConfigResult → Bool
unfolding is_empty
changed result = result.allowed_removed || not (is_empty result.removed_model_pins)

without_pins : I64 → ModelConfig → ModelConfig
without_pins chat_id model = record model {
  telegram_chat_ids = IdSet.remove chat_id model.telegram_chat_ids;
}

-- Whether `retain` made a list shorter.
shortened : List I64 → List I64 → Bool
shortened before after = not (length after == length before)

-- The loop that takes a chat's pins from every model: the keys of the models that had one.
unfoldable pub retain_pins : I64 → Models → List Text × Models
unfolding without_pins shortened
retain_pins chat_id [] = ([], [])
retain_pins chat_id ((key, model) ∷ models) =
    let (removed, rest) = retain_pins chat_id models in
    let kept = without_pins chat_id model in
    (
      if shortened model.telegram_chat_ids kept.telegram_chat_ids then key ∷ removed else removed,
      (key, kept) ∷ rest,
    )

unfoldable pub deny_chat_in_config : I64 → Config → DenyChatConfigResult × Config
unfolding with_allowed shortened retain_pins
deny_chat_in_config chat_id config =
    let left = IdSet.remove chat_id config.telegram.allowed_chat_ids in
    let (removed, models) = retain_pins chat_id config.models in
    (
      record {
        allowed_removed = shortened config.telegram.allowed_chat_ids left;
        removed_model_pins = removed;
      },
      record (with_allowed left config) { models = models },
    )

-- The changes of `persist_paired_chat`: whether the pairer became an owner, and whether anything
-- changed.
unfoldable pub new_owner : Option I64 → Config → Bool
new_owner none config = false
new_owner (some user_id) config = not (IdSet.contains user_id config.telegram.owner_user_ids)

unfoldable pub push_owner : Option I64 → Config → Config
unfolding with_owners
push_owner none config = config
push_owner (some user_id) config =
    if IdSet.contains user_id config.telegram.owner_user_ids
    then config
    else with_owners (config.telegram.owner_user_ids ++ user_id ∷ []) config

unfoldable pub pair_in_config : I64 → Option I64 → Config → (Bool × Bool) × Config
unfolding allow_chat_in_config new_owner push_owner
pair_in_config chat_id pairer_user_id config =
    let (changed, allowed) = allow_chat_in_config chat_id config in
    let became_owner = new_owner pairer_user_id allowed in
    ((became_owner, changed || became_owner), push_owner pairer_user_id allowed)

-- `config.models.get_mut(key)` and the push of a pin.
push_pin : I64 → Text → Models → Models
push_pin chat_id key [] = []
push_pin chat_id key ((k, model) ∷ models) =
    let rest = push_pin chat_id key models in
    if text_eq k key
    then ((k, record model { telegram_chat_ids = model.telegram_chat_ids ++ chat_id ∷ [] })
        ∷ models)
    else (k, model) ∷ rest

unfoldable pub pin_in_config : I64 → Text → Config → Config
unfolding push_pin retain_pins
pin_in_config chat_id model_key config = record config {
  models = push_pin chat_id model_key (retain_pins chat_id config.models).1;
}

-- Whether the chat was pinned, beside the new configuration.
unfoldable pub unpin_in_config : I64 → Config → Bool × Config
unfolding retain_pins is_empty allow_chat_in_config
unpin_in_config chat_id config =
    let (removed, models) = retain_pins chat_id config.models in
    let unpinned = record config { models = models } in
    if is_empty removed
    then (false, unpinned)
    else (true, (allow_chat_in_config chat_id unpinned).1)

unfoldable pub pinned_model_key_of : I64 → Models → Option Text
pinned_model_key_of chat_id [] = none
pinned_model_key_of chat_id ((key, model) ∷ models) =
    if IdSet.contains chat_id model.telegram_chat_ids
    then some key
    else pinned_model_key_of chat_id models

unfoldable pub pinned_model_key : Config → I64 → Option Text
unfolding pinned_model_key_of
pinned_model_key config chat_id = pinned_model_key_of chat_id config.models

-- `keys.find(|key| key.eq_ignore_ascii_case(requested))`
find_key : Text → List Text → Option Text
find_key requested [] = none
find_key requested (key ∷ keys) =
    if eq_ignore_ascii_case key requested then some key else find_key requested keys

unfoldable pub configured_model_key : Config → Text → Option Text
unfolding find_key model_keys
configured_model_key config requested = find_key requested (model_keys config.models)

unfoldable pub selected_model_key : Config → RoomState → I64 → Text
unfolding pinned_model_key
selected_model_key config room chat_id =
    unwrap_or (or_else (pinned_model_key config chat_id) room.settings.model_key)
      config.default_model
