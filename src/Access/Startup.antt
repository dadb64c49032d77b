-- ===== src/Access/Startup.antt =====
-- What the configuration gives the access control to start with.
use tellm.Base.{refl, ℕ, ◌≡◌, ◌||◌, Text, I64}
use tellm.Base.IdSet
use tellm.Base.IdSet.{contains-collect, contains-union}
use tellm.Config.{Config, pins}
use tellm.Access.State.{from_config, effective_allowed}
use tellm.Access.{new_with_generator, is_chat_allowed}

-- At the start, a chat is allowed exactly when the configuration allows it or pins it to a model, and
-- a user is an owner exactly when the configuration names the user.
pub new_with_generator-from_config :
    (config : Config) (generator : ℕ → Text) (chat_id user_id : I64)
    → (is_chat_allowed chat_id (new_with_generator (from_config config) generator) ≡ (
        IdSet.contains chat_id config.telegram.allowed_chat_ids
        || IdSet.contains chat_id (pins config.models)))
      × (IdSet.contains user_id (new_with_generator (from_config config) generator).owner_user_ids
          ≡ IdSet.contains user_id config.telegram.owner_user_ids)
unfolding is_chat_allowed new_with_generator effective_allowed from_config
new_with_generator-from_config config generator chat_id user_id =
    let allowed = config.telegram.allowed_chat_ids in
    (
      rw
          (
            contains-union chat_id (IdSet.collect allowed) (IdSet.collect (pins config.models)),
            contains-collect chat_id allowed,
            contains-collect chat_id (pins config.models),
          )
          refl,
      contains-collect user_id config.telegram.owner_user_ids,
    )
