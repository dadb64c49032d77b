-- ===== src/Commands/Syntax.antt =====
-- src/commands.rs: the shape of a command in a message, and the words of its arguments.
pub mod Parsing
use tellm.Base.{
  ℕ, Bool, true, false, not, ◌||◌, ◌&&◌, Option, none, some, List, [], ◌∷◌, ◌==◌, if◌then◌else◌,
  Text, codes, to_ascii_lowercase, split_whitespace, trim, trim_start, is_whitespace, text_eq,
  eq_ignore_ascii_case, is_one_of,
}
use tellm.Core.{ThinkingLevel, off, low, medium, high, max}
use tellm.Commands.Types.{
  KnownCommand, new, id, mode, model, role, reasoning, web_search, image_generation, allow, deny,
  pair, ollama, shutdown, help, ParsedRoute, command, user_message, ignore,
}

pub record ParsedCommand : Type 0 where
  pub name : Text
  pub args : Text
  pub for_other_bot : Bool

-- `text.find(char::is_whitespace).unwrap_or(text.len())`: the text before it and from it on.
pub split_token : Text → Text × Text
split_token [] = ([], [])
split_token (c ∷ s) =
    let (token, rest) = split_token s in if is_whitespace c then ([], c ∷ s) else (c ∷ token, rest)

-- `split_once('@')`, which without a match leaves the whole text and no target.
pub split_target : Text → Text × Option Text
split_target [] = ([], none)
split_target (c ∷ s) =
    let (name, target) = split_target s in if c == b'@' then ([], some s) else (c ∷ name, target)

pub for_other : Option Text → Option Text → Bool
for_other (some target) (some bot_username) = not (eq_ignore_ascii_case target bot_username)
for_other none bot_username = false
for_other target none = false

parsed_name : Text × Option Text → Text → Option Text → Option ParsedCommand
unfolding for_other
parsed_name ([], target) args bot_username = none
parsed_name (c ∷ name, target) args bot_username =
    some (record { name = c ∷ name; args = args; for_other_bot = for_other target bot_username })

-- The command behind the slash, with its arguments.
parsed_token : Text → Text → Option Text → Option ParsedCommand
unfolding parsed_name split_target
parsed_token [] args bot_username = none
parsed_token (c ∷ rest) args bot_username =
    parsed_name (split_target (c ∷ rest)) (trim args) bot_username

slash_command : Text → Option Text → Option ParsedCommand
unfolding parsed_token split_token
slash_command [] bot_username = none
slash_command (c ∷ s) bot_username =
    let (token, args) = split_token s in
    if c == b'/' then parsed_token token args bot_username else none

pub parse_command : Text → Option Text → Option ParsedCommand
unfolding slash_command
parse_command text bot_username = slash_command (trim_start text) bot_username

first_match : List (Text × KnownCommand) → Text → Option KnownCommand
first_match [] name = none
first_match ((literal, c) ∷ rest) name =
    if text_eq literal name then some c else first_match rest name

abbrev pub command_names : List (Text × KnownCommand)
command_names =
    (codes "new", new)
    ∷ (codes "id", id)
    ∷ (codes "mode", mode)
    ∷ (codes "model", model)
    ∷ (codes "role", role)
    ∷ (codes "reasoning", reasoning)
    ∷ (codes "websearch", web_search)
    ∷ (codes "imagegen", image_generation)
    ∷ (codes "allow", allow)
    ∷ (codes "deny", deny)
    ∷ (codes "pair", pair)
    ∷ (codes "ollama", ollama)
    ∷ (codes "shutdown", shutdown)
    ∷ (codes "help", help)
    ∷ []

pub parse_known_command : Text → Option KnownCommand
unfolding first_match
parse_known_command name = first_match command_names (to_ascii_lowercase name)

known_route : Option KnownCommand → Text → ParsedRoute
known_route none args = user_message
known_route (some c) args = command c args

parsed_route : Option ParsedCommand → ParsedRoute
unfolding parse_known_command known_route
parsed_route none = user_message
parsed_route (some p) =
    if p.for_other_bot then ignore else known_route (parse_known_command p.name) p.args

pub parse : Text → Option Text → ParsedRoute
unfolding parse_command parsed_route
parse text bot_username = parsed_route (parse_command text bot_username)

pub first_of_words : List Text → Option Text
first_of_words [] = none
first_of_words (w ∷ ws) = some w

pub second_of_words : List Text → Option Text
second_of_words [] = none
second_of_words (w ∷ ws) = first_of_words ws

pub first_arg : Text → Option Text
unfolding first_of_words
first_arg args = first_of_words (split_whitespace args)

-- `args.split_whitespace().nth(1)`
pub second_arg : Text → Option Text
unfolding first_of_words second_of_words
second_arg args = second_of_words (split_whitespace args)

pair_code_of : ParsedRoute → Option Text
pair_code_of (command pair args) = first_arg args
pair_code_of _ = none

pub pair_code : Text → Option Text → Option Text
unfolding pair_code_of
pair_code text bot_username = pair_code_of (parse text bot_username)

-- `none` for an unknown word, `some none` for the model's own level.
pub parse_thinking_setting : Text → Option (Option ThinkingLevel)
parse_thinking_setting value =
    let v = to_ascii_lowercase value in
    if is_one_of (codes "default" ∷ codes "model" ∷ codes "reset" ∷ []) v
    then some none
    else if text_eq (codes "off") v
    then some (some off)
    else if text_eq (codes "low") v
    then some (some low)
    else if text_eq (codes "medium") v
    then some (some medium)
    else if text_eq (codes "high") v
    then some (some high)
    else if text_eq (codes "max") v
    then some (some max)
    else none

pub parse_bool : Text → Option Bool
parse_bool value =
    let v = to_ascii_lowercase value in
    if is_one_of (codes "on" ∷ codes "true" ∷ codes "yes" ∷ codes "enable" ∷ codes "enabled" ∷ []) v
    then some true
    else if is_one_of
        (codes "off" ∷ codes "false" ∷ codes "no" ∷ codes "disable" ∷ codes "disabled" ∷ []) v
    then some false
    else none
