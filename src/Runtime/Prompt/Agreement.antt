-- ===== src/Runtime/Prompt/Agreement.antt =====
-- `/model add`, run alone, keeps the agreement: a new model pins no chat.
use tellm.Base.{
  ◌≡◌, inl, inr, refl, Bool, true, Option, none, some, [], ◌∷◌, is_some, Text, I64, arith,
  Bool-cases,
}
use tellm.Base.IdSet
use tellm.Config.{Config, pins}
use tellm.Runtime.ConfigEdits.{Models, get_model}
use tellm.Runtime.ConfigEdits.Configured.{contains-append}
use tellm.Runtime.Replies.Presets.{
  ProviderPreset, preset_by_key, model_config_from_preset, insert_model,
}
use tellm.Runtime.World.{World, alone, send_command_reply, save_or_restore, save_if}
use tellm.Runtime.World.Agreement.{
  Agrees, SameAccess, SameAccess-trans, SameAccess-refl, Agrees-same, Agrees-changed,
}
use tellm.Runtime.Prompt.{
  Secrets, reserve_terminal_secret_prompt, clear_terminal_secret_prompt, notified, reserved,
  prompt_and_store_secret, prompt_for_model_secret, key_reply, secret_reply,
  handle_configured_model_secret, add_preset, preset_added, add_by_preset, add_by_key,
  handle_add_model,
}

cleared-same : (name : Text) (w : World) → SameAccess w (clear_terminal_secret_prompt name w)
unfolding clear_terminal_secret_prompt
cleared-same name w = record {
  same_config = ground arith;
  same_access = ground arith;
  same_file = ground arith;
}

notified-same :
    (s : Secrets) (name : Text) (r : Option Text × World)
    → SameAccess r.1 (notified alone s name r).1
unfolding notified
notified-same s name (some e, w) = cleared-same name w
notified-same s name (none, w) = cleared-same name w

reserved-same :
    (s : Secrets) (k : I64) (notice name : Text) (r : Option Text × World)
    → SameAccess r.1 (reserved alone s k notice name r).1
unfolding reserved send_command_reply
reserved-same s k notice name (some e, w) = SameAccess-refl w
reserved-same s k notice name (none, w) =
    let n = notified-same s name (send_command_reply k notice w) in
    record { same_config = n.same_config; same_access = n.same_access; same_file = n.same_file }

prompted-same :
    (s : Secrets) (k : I64) (notice name : Text) (w : World)
    → SameAccess w (prompt_and_store_secret alone s k notice name w).1
unfolding prompt_and_store_secret reserve_terminal_secret_prompt
prompted-same s k notice name w =
    let reserving : SameAccess w (reserve_terminal_secret_prompt name w).1 = record {
      same_config = ground arith;
      same_access = ground arith;
      same_file = ground arith;
    } in
    SameAccess-trans w _ _ reserving
      (reserved-same s k notice name (reserve_terminal_secret_prompt name w))

prompt_for-same :
    (s : Secrets) (k : I64) (key name base : Text) (w : World)
    → SameAccess w (prompt_for_model_secret alone s k key name base w).1
unfolding prompt_for_model_secret send_command_reply
prompt_for-same s k key name base w =
    let p = prompted-same s k _ name w in
    record { same_config = p.same_config; same_access = p.same_access; same_file = p.same_file }

key_reply-same :
    (s : Secrets) (k : I64) (key name base : Text) (w : World)
    → SameAccess w (key_reply alone s k key name base w).1
unfolding key_reply send_command_reply
key_reply-same s k key name base w = elim (Bool-cases (s.has_secret name)) [
  | inl known ↦ rw known (record { same_config = refl; same_access = refl; same_file = refl })
  | inr missing ↦ rw missing (prompt_for-same s k key name base w)
]

secret_reply-same :
    (s : Secrets) (k : I64) (key : Text) (o : Option (Option Text)) (w : World)
    → SameAccess w (secret_reply alone s k key o w).1
unfolding secret_reply send_command_reply
secret_reply-same s k key (some (some name)) w = key_reply-same s k key name _ w
secret_reply-same s k key (some none) w = record {
  same_config = refl;
  same_access = refl;
  same_file = refl;
}
secret_reply-same s k key none w = record {
  same_config = refl;
  same_access = refl;
  same_file = refl;
}

configured_secret-same :
    (s : Secrets) (k : I64) (key : Text) (w : World)
    → SameAccess w (handle_configured_model_secret alone s k key w).1
unfolding handle_configured_model_secret
configured_secret-same s k key w = secret_reply-same s k key _ w

-- A new model without pins.
pins-insert_model :
    (j : I64) (key : Text) (p : ProviderPreset) (models : Models)
    → IdSet.contains j (pins (insert_model key (model_config_from_preset p) models))
      ≡ IdSet.contains j (pins models)
unfolding insert_model model_config_from_preset
pins-insert_model j key p [] = refl
pins-insert_model j key p ((k, m) ∷ models) = ground (
  arith,
  pins-insert_model j key p models,
  contains-append j m.telegram_chat_ids (pins models),
  contains-append j m.telegram_chat_ids
      (pins (insert_model key (model_config_from_preset p) models)),
)

add_preset-Agrees : (p : ProviderPreset) (w : World) → Agrees w → Agrees (add_preset alone p w).1
unfolding add_preset save_or_restore save_if
add_preset-Agrees p w v =
    let config : Config = record w.config {
      models = insert_model p.key (model_config_from_preset p) w.config.models;
    } in
    let saved =
      Agrees-changed true config w v (λ j. rw (pins-insert_model j p.key p w.config.models) refl)
        refl (λ h. absurd cc) in
    elim (Bool-cases (is_some (get_model p.key w.config.models))) [
      | inl there ↦ rw there v
      | inr absent ↦ rw absent saved
    ]

preset_added-Agrees :
    (s : Secrets) (k : I64) (p : ProviderPreset) (r : (Bool × Option Text) × World)
    → Agrees r.1
    → Agrees (preset_added alone s k p r).1
unfolding preset_added
preset_added-Agrees s k p ((already, some e), w) v = v
preset_added-Agrees s k p ((already, none), w) v =
    Agrees-same _ _ (key_reply-same s k p.key _ _ w) v

add_by_preset-Agrees :
    (s : Secrets) (k : I64) (key : Text) (o : Option ProviderPreset) (w : World)
    → Agrees w
    → Agrees (add_by_preset alone s k key o w).1
unfolding add_by_preset
add_by_preset-Agrees s k key none w v = Agrees-same _ _ (configured_secret-same s k key w) v
add_by_preset-Agrees s k key (some p) w v =
    preset_added-Agrees s k p (add_preset alone p w) (add_preset-Agrees p w v)

add_by_key-Agrees :
    (s : Secrets) (k : I64) (key : Text) (o : Option Text) (w : World)
    → Agrees w
    → Agrees (add_by_key alone s k key o w).1
unfolding add_by_key
add_by_key-Agrees s k key (some known) w v = Agrees-same _ _ (configured_secret-same s k known w) v
add_by_key-Agrees s k key none w v = add_by_preset-Agrees s k key (preset_by_key key) w v

pub handle_add_model-Agrees :
    (s : Secrets) (k : I64) (key : Text) (w : World)
    → Agrees w
    → Agrees (handle_add_model alone s k key w).1
unfolding handle_add_model
handle_add_model-Agrees s k key w v = add_by_key-Agrees s k key _ w v
