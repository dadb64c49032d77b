-- ===== src/Runtime/Replies/Rejects.antt =====
-- src/runtime.rs, `format_reject`, `command_name` and `help_text`: the answers to commands that are
-- rejected, and the help.
use tellm.Base.{◌++◌, Option, none, some, List, [], ◌∷◌, Text, codes}
use tellm.Commands.{
  KnownCommand, new, id, mode, model, role, reasoning, web_search, image_generation, allow, deny,
  pair, ollama, shutdown, help, CommandReject, missing_pairing_code, unknown_mode, unknown_model,
  unknown_reasoning, unknown_boolean, missing_chat_id, invalid_chat_id, unknown_ollama_action,
  pinned_model, owner_not_allowed, owner_stale, shutdown_not_owner, shutdown_stale,
  capability_unsupported,
}
use tellm.Runtime.Replies.{join}

pub command_name : KnownCommand → Text
command_name new = codes "new"
command_name id = codes "id"
command_name mode = codes "mode"
command_name model = codes "model"
command_name role = codes "role"
command_name reasoning = codes "reasoning"
command_name web_search = codes "websearch"
command_name image_generation = codes "imagegen"
command_name allow = codes "allow"
command_name deny = codes "deny"
command_name pair = codes "pair"
command_name ollama = codes "ollama"
command_name shutdown = codes "shutdown"
command_name help = codes "help"

pub format_reject : CommandReject → Text
unfolding command_name
format_reject missing_pairing_code = codes "Usage: /pair CODE."
format_reject (unknown_mode value) =
    codes "Unknown mode \"" ++ value ++ codes "\". Use chat or message."
format_reject (unknown_model value available) =
    codes "Unknown model \"" ++ value ++ codes "\". Available: " ++ join available ++ codes "."
format_reject (unknown_reasoning value) =
    codes "Unknown reasoning level \""
    ++ value
    ++ codes "\". Use default, off, low, medium, high, or max."
format_reject (unknown_boolean value) =
    codes "Unknown on/off value \"" ++ value ++ codes "\". Use on, off, or status."
format_reject (missing_chat_id c) = codes "Usage: /" ++ command_name c ++ codes " CHAT_ID."
format_reject (invalid_chat_id value) =
    codes "Invalid chat id \"" ++ value ++ codes "\". Use a numeric Telegram chat id."
format_reject (unknown_ollama_action (some value)) =
    codes "Unknown Ollama action \"" ++ value ++ codes "\". Usage: /ollama unload."
format_reject (unknown_ollama_action none) = codes "Usage: /ollama unload."
format_reject (pinned_model model_key) =
    codes "This room is pinned to " ++ model_key ++ codes "; /model changes are disabled."
format_reject owner_not_allowed = codes "Only the bot owner can use this command."
format_reject owner_stale = codes "Ignoring stale owner command."
format_reject shutdown_not_owner = codes "Only the bot owner can use /shutdown."
format_reject shutdown_stale = codes "Ignoring stale /shutdown command."
format_reject (capability_unsupported feature model_key endpoint) =
    feature
    ++ codes " isn't supported by this room's model \""
    ++ model_key
    ++ codes "\" ("
    ++ endpoint
    ++ codes "). Switch models with /model, or leave it off."

abbrev help_lines : List Text
help_lines =
    codes "- /new - reset this chat"
    ∷ codes "- /id - show this Telegram chat id"
    ∷ codes "- /mode chat|message - show or set conversation mode"
    ∷ codes "- /model KEY - show or set model"
    ∷ codes "- /model pin KEY | /model unpin - lock or release this room's model (owner)"
    ∷ codes "- /model add [KEY] - list the provider catalog or add a preset (owner)"
    ∷ codes "- /role TEXT|clear - show, set, or clear the system role"
    ∷ codes "- /reasoning default|off|low|medium|high|max - show or set reasoning level"
    ∷ codes "- /websearch on|off|status - toggle, set, or show web search"
    ∷ codes "- /imagegen on|off|status - toggle, set, or show image generation"
    ∷ codes "- /allow CHAT_ID - allow a chat (owner)"
    ∷ codes "- /deny CHAT_ID - deny a chat and clear its room state (owner)"
    ∷ codes "- /pair CODE - pair a new chat"
    ∷ codes "- /ollama unload - unload local Ollama models used by this session (owner)"
    ∷ codes "- /shutdown - stop tellm (owner)"
    ∷ codes "- /help - show commands"
    ∷ []

lines : List Text → Text
lines [] = []
lines (t ∷ []) = t
lines (t ∷ s ∷ ts) = t ++ codes "\n" ++ lines (s ∷ ts)

pinned_line : Option Text → Text
pinned_line none = []
pinned_line (some model_key) =
    codes "\n- This room is pinned to " ++ model_key ++ codes "; /model changes are disabled"

pub help_text : Option Text → Text
unfolding lines pinned_line
help_text pinned_model_key = lines help_lines ++ pinned_line pinned_model_key
