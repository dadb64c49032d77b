-- ===== src/Commands/Privilege.antt =====
-- Which actions a command can lead to, and for whom.
use tellm.Base.{◌≡◌, refl, true, Option, none, some, arith, Text, I64, is_one_of}
use tellm.Base.Decimal.{parse_i64}
use tellm.Access.{PrivilegedAccess}
use tellm.Commands.{
  KnownCommand, new, id, mode, model, role, reasoning, web_search, image_generation, allow, deny,
  pair, ollama, shutdown, help, CommandAction, CommandContext, reject, invalid_chat_id,
  missing_chat_id, owner_not_allowed, owner_stale, show_help, first_arg, reset_history,
  show_chat_id, set_model, pin_model, unpin_model, show_model_catalog, add_model, set_web_search,
  set_image_generation, allow_chat, deny_chat, unload_ollama, shut_down, resolve, route_mode,
  route_model, route_role, route_reasoning, route_web_search, route_image_generation,
  route_chat_approval, route_pair, route_ollama, route_shutdown, owner_gate, approval_of_arg,
  approval_of_id, approval,
}

-- What an action needs of the context that it was resolved in: a room's own choice of a model, a
-- known model and no pin; what only an owner may do, the owner's privilege; switching a feature on,
-- the capability.
abbrev pub IsSound : CommandContext → CommandAction → Type 0
IsSound context (set_model k) =
    (is_one_of context.model_keys k ≡ true) × (context.pinned_model_key ≡ none)
IsSound context (pin_model k) =
    (is_one_of context.model_keys k ≡ true) × (context.privileged_access ≡ PrivilegedAccess.allowed)
IsSound context unpin_model = context.privileged_access ≡ PrivilegedAccess.allowed
IsSound context show_model_catalog = context.privileged_access ≡ PrivilegedAccess.allowed
IsSound context (add_model k) = context.privileged_access ≡ PrivilegedAccess.allowed
IsSound context (allow_chat c) = context.privileged_access ≡ PrivilegedAccess.allowed
IsSound context (deny_chat c) = context.privileged_access ≡ PrivilegedAccess.allowed
IsSound context unload_ollama = context.privileged_access ≡ PrivilegedAccess.allowed
IsSound context shut_down = context.privileged_access ≡ PrivilegedAccess.allowed
IsSound context (set_web_search true) = context.capabilities.web_search ≡ true
IsSound context (set_image_generation true) = context.capabilities.image_generation ≡ true
IsSound context _ = Unit

mode-IsSound :
    (args : Text) (context : CommandContext) → IsSound context (route_mode args context.settings)
unfolding route_mode
mode-IsSound args context = ground arith

model-IsSound :
    (args : Text) (context : CommandContext) → IsSound context (route_model args context)
unfolding route_model
model-IsSound args context = ground arith

role-IsSound :
    (args : Text) (context : CommandContext) → IsSound context (route_role args context.settings)
unfolding route_role
role-IsSound args context = ground arith

reasoning-IsSound :
    (args : Text) (context : CommandContext)
    → IsSound context (route_reasoning args context.settings context.model_thinking)
unfolding route_reasoning
reasoning-IsSound args context = ground arith

web_search-IsSound :
    (args : Text) (context : CommandContext)
    → IsSound context (route_web_search args context.settings context.capabilities)
unfolding route_web_search
web_search-IsSound args context = ground arith

image_generation-IsSound :
    (args : Text) (context : CommandContext)
    → IsSound context (route_image_generation args context.settings context.capabilities)
unfolding route_image_generation
image_generation-IsSound args context = ground arith

ollama-IsSound :
    (args : Text) (context : CommandContext)
    → IsSound context (route_ollama args context.privileged_access)
unfolding route_ollama
ollama-IsSound args context = ground arith

pair-IsSound : (args : Text) (context : CommandContext) → IsSound context (route_pair args)
unfolding route_pair
pair-IsSound args context = ground arith

shutdown-IsSound :
    (access : PrivilegedAccess) (context : CommandContext)
    → access ≡ context.privileged_access
    → IsSound context (route_shutdown access)
unfolding route_shutdown
shutdown-IsSound PrivilegedAccess.allowed context e = cc
shutdown-IsSound PrivilegedAccess.not_owner context e = tt
shutdown-IsSound PrivilegedAccess.stale context e = tt

-- The action of a command, and that it is sound.
abbrev pub Resolves : KnownCommand → Text → CommandContext → Type 0
Resolves c args context =
    (action : CommandAction) × (resolve c args context ≡ some action) × IsSound context action

-- The approval commands, `c`, with the action that each id leads to.
module _ (context : CommandContext) (c : KnownCommand) (k : I64 → CommandAction)
    (approves : (chat_id : I64) → approval c chat_id ≡ some (k chat_id))
    (sound : context.privileged_access ≡ PrivilegedAccess.allowed
      → (chat_id : I64) → IsSound context (k chat_id)) where
  id-Resolves :
      (value : Text) (o : Option I64)
      → context.privileged_access ≡ PrivilegedAccess.allowed
      → (action : CommandAction) × (approval_of_id c value o ≡ some action) × IsSound context action
  unfolding approval_of_id
  id-Resolves value none e = (reject (invalid_chat_id value), refl, tt)
  id-Resolves value (some chat_id) e = (k chat_id, approves chat_id, sound e chat_id)

  arg-Resolves :
      (o : Option Text)
      → context.privileged_access ≡ PrivilegedAccess.allowed
      → (action : CommandAction) × (approval_of_arg c o ≡ some action) × IsSound context action
  unfolding approval_of_arg
  arg-Resolves none e = (reject (missing_chat_id c), refl, tt)
  arg-Resolves (some value) e = id-Resolves value (parse_i64 value) e

  approval-Resolves :
      (args : Text) (access : PrivilegedAccess)
      → context.privileged_access ≡ access
      → (action : CommandAction) × (route_chat_approval c args access ≡ some action)
        × IsSound context action
  unfolding route_chat_approval owner_gate
  approval-Resolves args PrivilegedAccess.allowed e = arg-Resolves (first_arg args) e
  approval-Resolves args PrivilegedAccess.not_owner e = (reject owner_not_allowed, refl, tt)
  approval-Resolves args PrivilegedAccess.stale e = (reject owner_stale, refl, tt)

-- Every command resolves to an action, so the `unreachable!` is not reached. Whatever the arguments
-- are, only an owner with a fresh message gets an action that pins, unpins or adds a model, lists
-- the catalogue, allows or denies a chat, unloads models or shuts the bot down; a model is selected
-- or pinned only if it is configured, and selected only in a room that is not pinned; and web search
-- or image generation is switched on only where the model can do it.
pub resolve-IsSound :
    (c : KnownCommand) (args : Text) (context : CommandContext) → Resolves c args context
unfolding resolve approval
resolve-IsSound new args context = (reset_history, refl, tt)
resolve-IsSound id args context = (show_chat_id, refl, tt)
resolve-IsSound mode args context = (_, refl, mode-IsSound args context)
resolve-IsSound model args context = (_, refl, model-IsSound args context)
resolve-IsSound role args context = (_, refl, role-IsSound args context)
resolve-IsSound reasoning args context = (_, refl, reasoning-IsSound args context)
resolve-IsSound web_search args context = (_, refl, web_search-IsSound args context)
resolve-IsSound image_generation args context = (_, refl, image_generation-IsSound args context)
resolve-IsSound allow args context =
    approval-Resolves context allow allow_chat (λ i. refl) (λ e i. e) args context.privileged_access
      refl
resolve-IsSound deny args context =
    approval-Resolves context deny deny_chat (λ i. refl) (λ e i. e) args context.privileged_access
      refl
resolve-IsSound pair args context = (_, refl, pair-IsSound args context)
resolve-IsSound ollama args context = (_, refl, ollama-IsSound args context)
resolve-IsSound shutdown args context =
    (_, refl, shutdown-IsSound context.privileged_access context refl)
resolve-IsSound help args context = (show_help context.pinned_model_key, refl, tt)
