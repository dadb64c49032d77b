-- ===== src/Commands.antt =====
-- src/commands.rs: what a parsed command does in its room. `resolve` answers `none` for the
-- `unreachable!` of `route_chat_approval`.
mod Types
pub mod Syntax
mod Examples
pub mod Privilege
pub mod Pinning
pub use Types.*
pub use Syntax.*
use tellm.Base.{
  Bool, true, false, not, ◌&&◌, Option, none, some, List, [], ◌∷◌, if◌then◌else◌, Text, codes, I64,
  to_ascii_lowercase, trim, text_eq, is_one_of, or_else, unwrap_or, eq_ignore_ascii_case,
}
use tellm.Base.Decimal.{parse_i64}
use tellm.Core.{ThinkingLevel}
use tellm.Access.{PrivilegedAccess}
use tellm.Rooms.{RoomSettings, chat, message}

abbrev reject_with : CommandReject → CommandAction
reject_with = reject

mode_action : Text → CommandAction
mode_action value =
    let v = to_ascii_lowercase value in
    if text_eq (codes "chat") v
    then set_mode chat
    else if text_eq (codes "message") v
    then set_mode message
    else reject (unknown_mode value)

route_mode : Text → RoomSettings → CommandAction
unfolding mode_action
route_mode args settings = elim (first_arg args) [
  | none ↦ show_mode settings.mode
  | some value ↦ mode_action value
]

-- The rejection of a caller who is not an owner with a fresh message.
owner_gate : PrivilegedAccess → Option CommandAction
owner_gate PrivilegedAccess.not_owner = some (reject owner_not_allowed)
owner_gate PrivilegedAccess.stale = some (reject owner_stale)
owner_gate PrivilegedAccess.allowed = none

-- The rejection, or else the action behind the gate.
gated : PrivilegedAccess → CommandAction → CommandAction
unfolding owner_gate
gated access action = unwrap_or (owner_gate access) action

pin_key : Text → CommandContext → Text
pin_key args context =
    unwrap_or
      (or_else (or_else (second_arg args) context.pinned_model_key) context.settings.model_key)
      context.default_model

route_model_pin : Text → CommandContext → CommandAction
unfolding gated pin_key
route_model_pin args context =
    let key_arg = pin_key args context in
    gated context.privileged_access (
      if is_one_of context.model_keys key_arg
      then pin_model key_arg
      else reject (unknown_model key_arg context.model_keys))

add_action : Option Text → CommandAction
add_action none = show_model_catalog
add_action (some preset_key) = add_model preset_key

select_model : Option Text → Text → CommandContext → CommandAction
select_model (some model_key) value context = reject (pinned_model model_key)
select_model none value context =
    if is_one_of context.model_keys value
    then set_model value
    else reject (unknown_model value context.model_keys)

model_action : Text → Text → CommandContext → CommandAction
unfolding route_model_pin gated add_action select_model
model_action value args context =
    let v = to_ascii_lowercase value in
    if text_eq (codes "pin") v
    then route_model_pin args context
    else if text_eq (codes "unpin") v
    then gated context.privileged_access unpin_model
    else if text_eq (codes "add") v
    then gated context.privileged_access (add_action (second_arg args))
    else select_model context.pinned_model_key value context

route_model : Text → CommandContext → CommandAction
unfolding model_action
route_model args context = elim (first_arg args) [
  | none ↦
      show_model context.settings.model_key
        (unwrap_or (or_else context.pinned_model_key context.settings.model_key)
          context.default_model)
        context.pinned_model_key context.model_keys
  | some value ↦ model_action value args context
]

role_action : Text → Option Text → CommandAction
role_action [] current = show_role current
role_action (c ∷ s) current =
    if is_one_of (codes "clear" ∷ codes "off" ∷ codes "none" ∷ codes "reset" ∷ [])
      (to_ascii_lowercase (c ∷ s))
    then set_role none
    else set_role (some (c ∷ s))

route_role : Text → RoomSettings → CommandAction
unfolding role_action
route_role args settings = role_action (trim args) settings.role

reasoning_action : Text → CommandAction
reasoning_action value = elim (parse_thinking_setting value) [
  | some thinking ↦ set_reasoning thinking
  | none ↦ reject (unknown_reasoning value)
]

route_reasoning : Text → RoomSettings → ThinkingLevel → CommandAction
unfolding reasoning_action
route_reasoning args settings model_default = elim (first_arg args) [
  | none ↦ show_reasoning settings.thinking model_default
  | some value ↦ reasoning_action value
]

capability_reject : Text → RoomCapabilities → CommandAction
capability_reject feature capabilities =
    reject (capability_unsupported feature capabilities.model_key capabilities.endpoint)

web_search_gate : RoomCapabilities → Bool → CommandAction
unfolding capability_reject
web_search_gate capabilities enabled =
    if enabled && not capabilities.web_search
    then capability_reject (codes "Web search") capabilities
    else set_web_search enabled

image_generation_gate : RoomCapabilities → Bool → CommandAction
unfolding capability_reject
image_generation_gate capabilities enabled =
    if enabled && not capabilities.image_generation
    then capability_reject (codes "Image generation") capabilities
    else set_image_generation enabled

-- A toggle's argument: none flips it, `status` shows it, a boolean word sets it.
toggle : (Bool → CommandAction) → (Bool → CommandAction) → Bool → Option Text → CommandAction
toggle gate show current none = gate (not current)
toggle gate show current (some value) =
    if text_eq (codes "status") (to_ascii_lowercase value)
    then show current
    else elim (parse_bool value) [
      | some enabled ↦ gate enabled
      | none ↦ reject (unknown_boolean value)
    ]

route_web_search : Text → RoomSettings → RoomCapabilities → CommandAction
unfolding toggle web_search_gate
route_web_search args settings capabilities =
    toggle (web_search_gate capabilities) show_web_search settings.web_search (first_arg args)

route_image_generation : Text → RoomSettings → RoomCapabilities → CommandAction
unfolding toggle image_generation_gate
route_image_generation args settings capabilities =
    toggle (image_generation_gate capabilities) show_image_generation settings.image_generation
      (first_arg args)

approval : KnownCommand → I64 → Option CommandAction
approval allow chat_id = some (allow_chat chat_id)
approval deny chat_id = some (deny_chat chat_id)
approval _ chat_id = none

approval_of_id : KnownCommand → Text → Option I64 → Option CommandAction
unfolding approval
approval_of_id c value none = some (reject (invalid_chat_id value))
approval_of_id c value (some chat_id) = approval c chat_id

approval_of_arg : KnownCommand → Option Text → Option CommandAction
unfolding approval_of_id
approval_of_arg c none = some (reject (missing_chat_id c))
approval_of_arg c (some value) = approval_of_id c value (parse_i64 value)

route_chat_approval : KnownCommand → Text → PrivilegedAccess → Option CommandAction
unfolding owner_gate approval_of_arg
route_chat_approval c args access = elim (owner_gate access) [
  | some rejection ↦ some rejection
  | none ↦ approval_of_arg c (first_arg args)
]

route_pair : Text → CommandAction
route_pair args = elim (first_arg args) [
  | some code ↦ pair_room code
  | none ↦ reject missing_pairing_code
]

ollama_action : Option Text → CommandAction
ollama_action none = reject (unknown_ollama_action none)
ollama_action (some action) =
    if eq_ignore_ascii_case action (codes "unload")
    then unload_ollama
    else reject (unknown_ollama_action (some action))

route_ollama : Text → PrivilegedAccess → CommandAction
unfolding gated ollama_action
route_ollama args access = gated access (ollama_action (first_arg args))

route_shutdown : PrivilegedAccess → CommandAction
route_shutdown PrivilegedAccess.allowed = shut_down
route_shutdown PrivilegedAccess.not_owner = reject shutdown_not_owner
route_shutdown PrivilegedAccess.stale = reject shutdown_stale

pub resolve : KnownCommand → Text → CommandContext → Option CommandAction
resolve new args context = some reset_history
resolve id args context = some show_chat_id
resolve mode args context = some (route_mode args context.settings)
resolve model args context = some (route_model args context)
resolve role args context = some (route_role args context.settings)
resolve reasoning args context = some (route_reasoning args context.settings context.model_thinking)
resolve web_search args context = some (route_web_search args context.settings context.capabilities)
resolve image_generation args context =
    some (route_image_generation args context.settings context.capabilities)
resolve allow args context = route_chat_approval allow args context.privileged_access
resolve deny args context = route_chat_approval deny args context.privileged_access
resolve pair args context = some (route_pair args)
resolve ollama args context = some (route_ollama args context.privileged_access)
resolve shutdown args context = some (route_shutdown context.privileged_access)
resolve help args context = some (show_help context.pinned_model_key)
