-- ===== src/Commands/Examples.antt =====
-- Commands of a room with two models.
use tellm.Base.{
  arith, ◌≡◌, refl, true, false, none, some, List, [], ◌∷◌, ◌++◌, Text, codes, trim, if◌then◌else◌,
  eq_ignore_ascii_case, to_ascii_lowercase,
}
use tellm.Core.{medium}
use tellm.Access.{PrivilegedAccess}
use tellm.Rooms.{default_settings}
use tellm.Commands.{
  CommandContext, permissive, model, mode, command, ignore, CommandAction, resolve, parse,
}
use tellm.Commands.Privilege.{IsSound, resolve-IsSound}
use tellm.Commands.Syntax.Parsing.{parse-command, parse-addressed}

abbrev context : CommandContext
context = record {
  settings = default_settings;
  default_model = codes "fast";
  model_keys = codes "fast" ∷ codes "deep" ∷ [];
  pinned_model_key = none;
  model_thinking = medium;
  privileged_access = PrivilegedAccess.not_owner;
  capabilities = permissive;
}

resolve-IsSound_example :
    (action : CommandAction) × (resolve model (codes "pin deep") context ≡ some action)
    × IsSound context action
resolve-IsSound_example = resolve-IsSound model (codes "pin deep") context

parse-command_example :
    parse (b'/' ∷ (codes "Mode" ++ b' ' ∷ codes "chat ")) none ≡ command mode (trim (codes "chat "))
parse-command_example =
    parse-command mode (codes "Mode") (codes "chat ") none (unfold to_ascii_lowercase in refl)

parse-addressed_example :
    parse
      (b'/' ∷ ((codes "mode" ++ b'@' ∷ codes "other_bot") ++ b' ' ∷ codes "chat"))
      (some (codes "tellm_bot"))
    ≡ (if eq_ignore_ascii_case (codes "other_bot") (codes "tellm_bot")
        then command mode (trim (codes "chat"))
        else ignore)
parse-addressed_example =
    parse-addressed mode (codes "mode") (codes "other_bot") (codes "chat") (codes "tellm_bot")
      (unfold to_ascii_lowercase in refl) (unfold tellm.Base.is_whitespace in ground arith)
