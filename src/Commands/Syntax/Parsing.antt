-- ===== src/Commands/Syntax/Parsing.antt =====
-- Which messages are commands: printing a command and parsing it again.
use tellm.Base.{
  ℕ, ◌≤◌, ◌≡◌, ◌≢◌, refl, false, Option, none, some, [], ◌∷◌, ◌++◌, All, All-append, arith, ◌==◌,
  if◌then◌else◌, Text, codes, lower, to_ascii_lowercase, trim, trim_start, is_whitespace, text_eq,
  eq_ignore_ascii_case,
}
use tellm.Commands.Types.{
  KnownCommand, new, id, mode, model, role, reasoning, web_search, image_generation, allow, deny,
  pair, ollama, shutdown, help, command, ignore,
}
use tellm.Commands.Syntax.{
  split_token, split_target, for_other, parse_command, parse_known_command, parse, first_match,
  command_names, parsed_token, parsed_name, parsed_route, known_route, slash_command,
}

-- The name of each command, as a user writes it.
abbrev pub name_of : KnownCommand → Text
name_of new = codes "new"
name_of id = codes "id"
name_of mode = codes "mode"
name_of model = codes "model"
name_of role = codes "role"
name_of reasoning = codes "reasoning"
name_of web_search = codes "websearch"
name_of image_generation = codes "imagegen"
name_of allow = codes "allow"
name_of deny = codes "deny"
name_of pair = codes "pair"
name_of ollama = codes "ollama"
name_of shutdown = codes "shutdown"
name_of help = codes "help"

abbrev IsLetter : ℕ → Type 0
IsLetter c = (b'a' ≤ c) × (c ≤ b'z')

abbrev pub IsSpaceless : Text → Type 0
IsSpaceless = All (λ c. is_whitespace c ≡ false)

abbrev IsPlain : Text → Type 0
IsPlain = All (λ c. (is_whitespace c ≡ false) × ((c == b'@') ≡ false))

name_of-letters : (c : KnownCommand) → All IsLetter (name_of c)
name_of-letters new = omega arith
name_of-letters id = omega arith
name_of-letters mode = omega arith
name_of-letters model = omega arith
name_of-letters role = omega arith
name_of-letters reasoning = omega arith
name_of-letters web_search = omega arith
name_of-letters image_generation = omega arith
name_of-letters allow = omega arith
name_of-letters deny = omega arith
name_of-letters pair = omega arith
name_of-letters ollama = omega arith
name_of-letters shutdown = omega arith
name_of-letters help = omega arith

lower_plain :
    (c d : ℕ) → lower c ≡ d → IsLetter d → (is_whitespace c ≡ false) × ((c == b'@') ≡ false)
unfolding lower is_whitespace
lower_plain c d h l = ground arith

-- A text in any mixture of cases that is a word of letters in lower case.
IsPlain-of_letters : (s t : Text) → to_ascii_lowercase s ≡ t → All IsLetter t → IsPlain s
unfolding to_ascii_lowercase
IsPlain-of_letters [] t h l = tt
IsPlain-of_letters (c ∷ s) [] h l = cc
IsPlain-of_letters (c ∷ s) (d ∷ t) h (ld, lt) =
    (lower_plain c d (ground (arith, h)) ld, IsPlain-of_letters s t (ground (arith, h)) lt)

split_token-plain :
    (s rest : Text) → IsSpaceless s → split_token (s ++ b' ' ∷ rest) ≡ (s, b' ' ∷ rest)
unfolding split_token
split_token-plain [] rest h = unfold is_whitespace in refl
split_token-plain (c ∷ s) rest (hc, hs) = rw (hc, split_token-plain s rest hs)

split_target-none : (s : Text) → IsPlain s → split_target s ≡ (s, none)
unfolding split_target
split_target-none [] h = refl
split_target-none (c ∷ s) (hc, hs) = rw (hc.1, split_target-none s hs)

split_target-some : (s t : Text) → IsPlain s → split_target (s ++ b'@' ∷ t) ≡ (s, some t)
unfolding split_target
split_target-some [] t h = refl
split_target-some (c ∷ s) t (hc, hs) = rw (hc.1, split_target-some s t hs)

known_name : (c : KnownCommand) → first_match command_names (name_of c) ≡ some c
unfolding first_match text_eq
known_name new = refl
known_name id = refl
known_name mode = refl
known_name model = refl
known_name role = refl
known_name reasoning = refl
known_name web_search = refl
known_name image_generation = refl
known_name allow = refl
known_name deny = refl
known_name pair = refl
known_name ollama = refl
known_name shutdown = refl
known_name help = refl

parse_known_command-name_of :
    (c : KnownCommand) (s : Text)
    → to_ascii_lowercase s ≡ name_of c
    → parse_known_command s ≡ some c
unfolding parse_known_command
parse_known_command-name_of c s h = rw h (known_name c)

IsSpaceless-of_plain : (s : Text) → IsPlain s → IsSpaceless s
IsSpaceless-of_plain [] h = tt
IsSpaceless-of_plain (c ∷ s) (hc, hs) = (hc.0, IsSpaceless-of_plain s hs)

-- A space in front is trimmed away.
trim-space : (args : Text) → trim (b' ' ∷ args) ≡ trim args
unfolding trim trim_start is_whitespace
trim-space args = refl

-- A message that is a slash, a token without whitespace, a space and any arguments.
parse_command-token :
    (token args : Text) (bot_username : Option Text)
    → IsSpaceless token
    → parse_command (b'/' ∷ (token ++ b' ' ∷ args)) bot_username
      ≡ parsed_token token (b' ' ∷ args) bot_username
unfolding parse_command slash_command trim_start
parse_command-token token args bot_username h = rw (split_token-plain token args h)

known_token :
    (c : KnownCommand) (x : ℕ) (n args : Text) (target bot_username : Option Text)
    → to_ascii_lowercase (x ∷ n) ≡ name_of c
    → parsed_route (parsed_name (x ∷ n, target) args bot_username)
      ≡ (if for_other target bot_username then ignore else command c args)
unfolding parsed_route parsed_name known_route
known_token c x n args target bot_username h = rw (parse_known_command-name_of c (x ∷ n) h) refl

-- No command has the empty name.
name_of-nonempty : (c : KnownCommand) → [] ≢ name_of c
name_of-nonempty new h = cc
name_of-nonempty id h = cc
name_of-nonempty mode h = cc
name_of-nonempty model h = cc
name_of-nonempty role h = cc
name_of-nonempty reasoning h = cc
name_of-nonempty web_search h = cc
name_of-nonempty image_generation h = cc
name_of-nonempty allow h = cc
name_of-nonempty deny h = cc
name_of-nonempty pair h = cc
name_of-nonempty ollama h = cc
name_of-nonempty shutdown h = cc
name_of-nonempty help h = cc

-- The token of a command without a target.
plain_token :
    (c : KnownCommand) (name args : Text) (bot_username : Option Text)
    → to_ascii_lowercase name ≡ name_of c
    → IsPlain name
    → parsed_route (parsed_token name (b' ' ∷ args) bot_username) ≡ command c (trim args)
unfolding parsed_token for_other
plain_token c [] args bot_username h plain =
    elim (name_of-nonempty c (unfold to_ascii_lowercase in h)) [ ]
plain_token c (x ∷ n) args bot_username h plain =
    rw (split_target-none (x ∷ n) plain, trim-space args)
      (known_token c x n (trim args) none bot_username h)

-- The token of a command with a target behind an at-sign.
addressed_token :
    (c : KnownCommand) (name target args : Text) (bot_username : Option Text)
    → to_ascii_lowercase name ≡ name_of c
    → IsPlain name
    → parsed_route (parsed_token (name ++ b'@' ∷ target) (b' ' ∷ args) bot_username)
      ≡ (if for_other (some target) bot_username then ignore else command c (trim args))
unfolding parsed_token
addressed_token c [] target args bot_username h plain =
    elim (name_of-nonempty c (unfold to_ascii_lowercase in h)) [ ]
addressed_token c (x ∷ n) target args bot_username h plain =
    rw (split_target-some (x ∷ n) target plain, trim-space args)
      (known_token c x n (trim args) (some target) bot_username h)

-- A command's name, in any mixture of cases, behind a slash and followed by a space and any
-- arguments, is parsed as that command with the arguments trimmed, whatever the bot is called.
pub parse-command :
    (c : KnownCommand) (name args : Text) (bot_username : Option Text)
    → to_ascii_lowercase name ≡ name_of c
    → parse (b'/' ∷ (name ++ b' ' ∷ args)) bot_username ≡ command c (trim args)
unfolding parse
parse-command c name args bot_username h =
    let plain = IsPlain-of_letters name (name_of c) h (name_of-letters c) in
    rw (parse_command-token name args bot_username (IsSpaceless-of_plain name plain))
      (plain_token c name args bot_username h plain)

-- A command addressed to a bot by an at-sign and a name without whitespace is parsed as the command
-- when this bot has that name, in any mixture of cases, and is ignored otherwise.
pub parse-addressed :
    (c : KnownCommand) (name target args bot_username : Text)
    → to_ascii_lowercase name ≡ name_of c
    → IsSpaceless target
    → parse (b'/' ∷ ((name ++ b'@' ∷ target) ++ b' ' ∷ args)) (some bot_username)
      ≡ (if eq_ignore_ascii_case target bot_username then command c (trim args) else ignore)
unfolding parse
parse-addressed c name target args bot_username h spaceless =
    let plain = IsPlain-of_letters name (name_of c) h (name_of-letters c) in
    let at_sign : IsSpaceless (b'@' ∷ target) = (unfold is_whitespace in refl, spaceless) in
    let token =
      All-append (λ c. is_whitespace c ≡ false) name (b'@' ∷ target)
        (IsSpaceless-of_plain name plain) at_sign in
    rw
      (
        parse_command-token (name ++ b'@' ∷ target) args (some bot_username) token,
        addressed_token c name target args (some bot_username) h plain,
      )
      (unfold for_other in ground arith)
