-- ===== src/Runtime/ConfigEdits/Configured.antt =====
-- Which chats the configuration allows after each change of it: the listed chats and those that a
-- model pins.
use tellm.Base.{
  ◌++◌, ◌≡◌, ◌≤◌, refl, ap, Bool, true, false, not, ◌||◌, Option, none, some, List, [], ◌∷◌, length,
  ◌==◌, if◌then◌else◌, Text, I64, arith, is_one_of,
}
use tellm.Base.IdSet
use tellm.Base.IdSet.{contains-remove}
use tellm.Config.{Config, pins}
use tellm.Runtime.ConfigEdits.{
  Models, with_allowed, with_owners, allow_chat_in_config, is_empty, changed, without_pins,
  shortened, retain_pins, deny_chat_in_config, new_owner, push_owner, pair_in_config, push_pin,
  pin_in_config, unpin_in_config, model_keys,
}

-- Whether the configuration lists the chat or pins a model to it.
abbrev pub configured : I64 → Config → Bool
configured chat_id config =
    IdSet.contains chat_id config.telegram.allowed_chat_ids
    || IdSet.contains chat_id (pins config.models)

pub contains-append :
    (j : I64) (s t : List I64)
    → IdSet.contains j (s ++ t) ≡ (IdSet.contains j s || IdSet.contains j t)
unfolding IdSet.contains
contains-append j [] t = refl
contains-append j (k ∷ s) t = ground (arith, contains-append j s t)

contains-push :
    (j k : I64) (s : List I64) → IdSet.contains j (s ++ k ∷ []) ≡ (k == j || IdSet.contains j s)
unfolding IdSet.contains
contains-push j k s = ground (arith, contains-append j s (k ∷ []))

length-remove : (k : I64) (s : List I64) → length (IdSet.remove k s) ≤ length s
unfolding IdSet.remove
length-remove k [] = omega arith
length-remove k (j ∷ s) = ground (arith, length-remove k s)

shortened-remove : (k : I64) (s : List I64) → shortened s (IdSet.remove k s) ≡ IdSet.contains k s
unfolding shortened IdSet.remove IdSet.contains
shortened-remove k [] = refl
shortened-remove k (j ∷ s) = ground (arith, shortened-remove k s, length-remove k s)

remove-absent : (k : I64) (s : List I64) → IdSet.contains k s ≡ false → IdSet.remove k s ≡ s
unfolding IdSet.remove IdSet.contains
remove-absent k [] h = refl
remove-absent k (j ∷ s) h = ground (arith, remove-absent k s)

contains-retain_pins :
    (k j : I64) (models : Models)
    → IdSet.contains j (pins (retain_pins k models).1)
      ≡ (if k == j then false else IdSet.contains j (pins models))
unfolding retain_pins without_pins IdSet.contains
contains-retain_pins k j [] = ground arith
contains-retain_pins k j ((key, model) ∷ models) = ground (
  arith,
  contains-append j model.telegram_chat_ids (pins models),
  contains-append j (IdSet.remove k model.telegram_chat_ids) (pins (retain_pins k models).1),
  contains-retain_pins k j models,
  contains-remove k j model.telegram_chat_ids,
)

pinned-retain_pins :
    (k : I64) (models : Models)
    → not (is_empty (retain_pins k models).0) ≡ IdSet.contains k (pins models)
unfolding retain_pins without_pins is_empty IdSet.contains
pinned-retain_pins k [] = refl
pinned-retain_pins k ((key, model) ∷ models) = ground (
  arith,
  contains-append k model.telegram_chat_ids (pins models),
  pinned-retain_pins k models,
  shortened-remove k model.telegram_chat_ids,
)

retain_pins-absent :
    (k : I64) (models : Models)
    → IdSet.contains k (pins models) ≡ false
    → (retain_pins k models).1 ≡ models
unfolding retain_pins without_pins
retain_pins-absent k [] h = refl
retain_pins-absent k ((key, model) ∷ models) h = ground (
  arith,
  contains-append k model.telegram_chat_ids (pins models),
  retain_pins-absent k models,
  remove-absent k model.telegram_chat_ids,
)

-- Every change says of each chat `j` whether the new configuration allows it.
pub configured-allow :
    (k j : I64) (config : Config)
    → configured j (allow_chat_in_config k config).1 ≡ (k == j || configured j config)
unfolding allow_chat_in_config with_allowed
configured-allow k j config = ground (arith, contains-push j k config.telegram.allowed_chat_ids)

pub configured-deny :
    (k j : I64) (config : Config)
    → configured j (deny_chat_in_config k config).1
      ≡ (if k == j then false else configured j config)
unfolding deny_chat_in_config with_allowed
configured-deny k j config = ground (
  arith,
  contains-remove k j config.telegram.allowed_chat_ids,
  contains-retain_pins k j config.models,
)

-- A denial changes the configuration exactly when it allowed the chat.
pub changed-deny :
    (k : I64) (config : Config) → changed (deny_chat_in_config k config).0 ≡ configured k config
unfolding deny_chat_in_config changed with_allowed
changed-deny k config = rw (shortened-remove, pinned-retain_pins) refl

pub deny-unchanged :
    (k : I64) (config : Config)
    → configured k config ≡ false
    → (deny_chat_in_config k config).1 ≡ config
unfolding deny_chat_in_config with_allowed
deny-unchanged k config h =
    let a : IdSet.contains k config.telegram.allowed_chat_ids ≡ false = ground arith in
    let b : IdSet.contains k (pins config.models) ≡ false = ground arith in
    rw (remove-absent k config.telegram.allowed_chat_ids a, retain_pins-absent k config.models b)
      refl

pub allow-unchanged :
    (k : I64) (config : Config)
    → (allow_chat_in_config k config).0 ≡ false
    → ((allow_chat_in_config k config).1 ≡ config) × (configured k config ≡ true)
unfolding allow_chat_in_config
allow-unchanged k config h = (ground arith, ground arith)

pub owners-allow :
    (k : I64) (config : Config)
    → (allow_chat_in_config k config).1.telegram.owner_user_ids ≡ config.telegram.owner_user_ids
unfolding allow_chat_in_config with_allowed
owners-allow k config = ground arith

pub owners-deny :
    (k : I64) (config : Config)
    → (deny_chat_in_config k config).1.telegram.owner_user_ids ≡ config.telegram.owner_user_ids
unfolding deny_chat_in_config with_allowed
owners-deny k config = refl

-- Pairing allows the chat, and adds the pairing user to the owners if it became one.
pub configured-pair :
    (k j : I64) (user : Option I64) (config : Config)
    → configured j (pair_in_config k user config).1 ≡ (k == j || configured j config)
unfolding pair_in_config push_owner with_owners
configured-pair k j none config = configured-allow k j config
configured-pair k j (some u) config = ground (arith, configured-allow k j config)

unfoldable pub is_user : Option I64 → I64 → Bool
is_user none j = false
is_user (some u) j = u == j

pub owners-pair :
    (k j : I64) (user : Option I64) (config : Config)
    → IdSet.contains j (pair_in_config k user config).1.telegram.owner_user_ids ≡ (
        (if (pair_in_config k user config).0.0 then is_user user j else false)
        || IdSet.contains j config.telegram.owner_user_ids)
unfolding pair_in_config push_owner new_owner with_owners is_user
owners-pair k j none config = rw (owners-allow k config) refl
owners-pair k j (some u) config =
    ground (arith, owners-allow k config, contains-push j u config.telegram.owner_user_ids)

pub pair-unchanged :
    (k : I64) (user : Option I64) (config : Config)
    → (pair_in_config k user config).0.1 ≡ false
    → ((pair_in_config k user config).1 ≡ config) × ((pair_in_config k user config).0.0 ≡ false)
unfolding pair_in_config push_owner new_owner
pair-unchanged k none config h = ((allow-unchanged k config (ground arith)).0, refl)
pair-unchanged k (some u) config h = (ground (arith, allow-unchanged k config), ground arith)

contains-push_pin :
    (k j : I64) (key : Text) (models : Models)
    → is_one_of (model_keys models) key ≡ true
    → IdSet.contains j (pins (push_pin k key models)) ≡ (k == j || IdSet.contains j (pins models))
unfolding push_pin model_keys is_one_of IdSet.contains
contains-push_pin k j key [] h = cc
contains-push_pin k j key ((name, model) ∷ models) h = ground (
  arith,
  contains-push_pin k j key models,
  contains-append j model.telegram_chat_ids (pins models),
  contains-append j (model.telegram_chat_ids ++ k ∷ []) (pins models),
  contains-append j model.telegram_chat_ids (pins (push_pin k key models)),
  contains-push j k model.telegram_chat_ids,
)

keys-retain_pins :
    (k : I64) (models : Models) → model_keys (retain_pins k models).1 ≡ model_keys models
unfolding model_keys retain_pins
keys-retain_pins k [] = refl
keys-retain_pins k ((name, model) ∷ models) = ap (λ ks. name ∷ ks) (keys-retain_pins k models)

-- A pin moves a chat between models; the model must be one of the configuration's.
pub configured-pin :
    (k j : I64) (key : Text) (config : Config)
    → is_one_of (model_keys config.models) key ≡ true
    → configured j (pin_in_config k key config) ≡ (k == j || configured j config)
unfolding pin_in_config
configured-pin k j key config h = ground (
  arith,
  contains-push_pin k j key (retain_pins k config.models).1
      (rw (keys-retain_pins k config.models) h),
  contains-retain_pins k j config.models,
)

-- A chat that is unpinned stays allowed.
pub configured-unpin :
    (k j : I64) (config : Config) → configured j (unpin_in_config k config).1 ≡ configured j config
unfolding unpin_in_config
configured-unpin k j config =
    let unpinned : Config = record config { models = (retain_pins k config.models).1 } in
    ground (
      arith,
      configured-allow k j unpinned,
      pinned-retain_pins k config.models,
      contains-retain_pins k j config.models,
    )

pub owners-unpin :
    (k : I64) (config : Config)
    → (unpin_in_config k config).1.telegram.owner_user_ids ≡ config.telegram.owner_user_ids
unfolding unpin_in_config
owners-unpin k config =
    let unpinned : Config = record config { models = (retain_pins k config.models).1 } in
    ground (arith, owners-allow k unpinned)

-- A chat that was not pinned leaves the configuration as it was.
pub unpin-unchanged :
    (k : I64) (config : Config)
    → (unpin_in_config k config).0 ≡ false
    → (unpin_in_config k config).1 ≡ config
unfolding unpin_in_config
unpin-unchanged k config h =
    let none_pinned : IdSet.contains k (pins config.models) ≡ false =
      ground (arith, pinned-retain_pins k config.models) in
    ground (arith, retain_pins-absent k config.models none_pinned)

pub owners-pin :
    (k : I64) (key : Text) (config : Config)
    → (pin_in_config k key config).telegram.owner_user_ids ≡ config.telegram.owner_user_ids
unfolding pin_in_config
owners-pin k key config = refl

-- A pairing of a chat that is not configured changes the configuration.
pub pair-changed :
    (k : I64) (user : Option I64) (config : Config)
    → configured k config ≡ false
    → (pair_in_config k user config).0.1 ≡ true
unfolding pair_in_config allow_chat_in_config
pair-changed k user config h = ground arith
