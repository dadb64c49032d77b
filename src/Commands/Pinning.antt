-- ===== src/Commands/Pinning.antt =====
-- A pin is resolved only for a model of the configuration.
use tellm.Base.{◌≡◌, ◌⊎◌, inl, inr, Bool, true, some, List, Text, arith, is_one_of, Option-cases}
use tellm.Access.{PrivilegedAccess}
use tellm.Commands.{
  KnownCommand, new, id, mode, model, role, reasoning, web_search, image_generation, allow, deny,
  pair, ollama, shutdown, help, CommandAction, pin_model, CommandContext, resolve, mode_action,
  route_mode, owner_gate, gated, route_model_pin, add_action, select_model, model_action,
  route_model, role_action, route_role, reasoning_action, route_reasoning, toggle, web_search_gate,
  image_generation_gate, capability_reject, route_web_search, route_image_generation, approval,
  approval_of_id, approval_of_arg, route_chat_approval, route_pair, ollama_action, route_ollama,
  route_shutdown, first_arg,
}

-- Whether a model that an action pins is among some keys.
abbrev pub pins_known : List Text → CommandAction → Bool
pins_known keys (pin_model key) = is_one_of keys key
pins_known keys _ = true

gated_known :
    (c : CommandContext) (access : PrivilegedAccess) (action : CommandAction)
    → pins_known c.model_keys action ≡ true
    → pins_known c.model_keys (gated access action) ≡ true
unfolding gated owner_gate
gated_known c access action h = ground arith

model_action_known :
    (value args : Text) (c : CommandContext)
    → pins_known c.model_keys (model_action value args c) ≡ true
unfolding model_action route_model_pin gated owner_gate add_action select_model
model_action_known value args c = ground arith

model_known :
    (args : Text) (c : CommandContext) → pins_known c.model_keys (route_model args c) ≡ true
unfolding route_model
model_known args c = elim (Option-cases (first_arg args)) [
  | inl e ↦ ground (arith, e)
  | inr (value, e) ↦ ground (arith, e, model_action_known value args c)
]

mode_known :
    (args : Text) (c : CommandContext) → pins_known c.model_keys (route_mode args c.settings) ≡ true
unfolding route_mode mode_action
mode_known args c = ground arith

role_known :
    (args : Text) (c : CommandContext) → pins_known c.model_keys (route_role args c.settings) ≡ true
unfolding route_role role_action
role_known args c = ground arith

reasoning_known :
    (args : Text) (c : CommandContext)
    → pins_known c.model_keys (route_reasoning args c.settings c.model_thinking) ≡ true
unfolding route_reasoning reasoning_action
reasoning_known args c = ground arith

web_search_known :
    (args : Text) (c : CommandContext)
    → pins_known c.model_keys (route_web_search args c.settings c.capabilities) ≡ true
unfolding route_web_search toggle web_search_gate capability_reject
web_search_known args c = ground arith

image_known :
    (args : Text) (c : CommandContext)
    → pins_known c.model_keys (route_image_generation args c.settings c.capabilities) ≡ true
unfolding route_image_generation toggle image_generation_gate capability_reject
image_known args c = ground arith

approval_known :
    (args : Text) (c : CommandContext) (action : CommandAction)
    → (route_chat_approval allow args c.privileged_access ≡ some action)
      ⊎ (route_chat_approval deny args c.privileged_access ≡ some action)
    → pins_known c.model_keys action ≡ true
unfolding route_chat_approval owner_gate approval_of_arg approval_of_id approval
approval_known args c action (inl h) = ground arith
approval_known args c action (inr h) = ground arith

rest_known :
    (args : Text) (c : CommandContext)
    → (pins_known c.model_keys (route_pair args) ≡ true)
      × (pins_known c.model_keys (route_ollama args c.privileged_access) ≡ true)
      × (pins_known c.model_keys (route_shutdown c.privileged_access) ≡ true)
unfolding route_pair route_ollama gated owner_gate ollama_action route_shutdown
rest_known args c = (ground arith, ground arith, ground arith)

pub resolve-pins_known :
    (k : KnownCommand) (args : Text) (c : CommandContext) (action : CommandAction)
    → resolve k args c ≡ some action
    → pins_known c.model_keys action ≡ true
unfolding resolve
resolve-pins_known new args c action h = ground arith
resolve-pins_known id args c action h = ground arith
resolve-pins_known mode args c action h = ground (arith, mode_known args c)
resolve-pins_known model args c action h = ground (arith, model_known args c)
resolve-pins_known role args c action h = ground (arith, role_known args c)
resolve-pins_known reasoning args c action h = ground (arith, reasoning_known args c)
resolve-pins_known web_search args c action h = ground (arith, web_search_known args c)
resolve-pins_known image_generation args c action h = ground (arith, image_known args c)
resolve-pins_known allow args c action h = approval_known args c action (inl h)
resolve-pins_known deny args c action h = approval_known args c action (inr h)
resolve-pins_known pair args c action h = ground (arith, rest_known args c)
resolve-pins_known ollama args c action h = ground (arith, rest_known args c)
resolve-pins_known shutdown args c action h = ground (arith, rest_known args c)
resolve-pins_known help args c action h = ground arith
