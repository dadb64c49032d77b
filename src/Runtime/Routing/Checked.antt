-- ===== src/Runtime/Routing/Checked.antt =====
-- What a routed command has passed: its chat is allowed, and a model that it pins is configured.
use tellm.Base.{◌≡◌, refl, inl, inr, true, Option, none, some, Text, I64, Bool-cases}
use tellm.Config.{Config}
use tellm.Access.{AccessTime}
use tellm.Commands.{
  ParsedRoute, command, user_message, ignore, KnownCommand, CommandAction, parse, resolve,
  CommandContext,
}
use tellm.Commands.Pinning.{pins_known, resolve-pins_known}
use tellm.Runtime.ConfigEdits.{model_keys}
use tellm.Runtime.World.{World, alone, chat_is_allowed}
use tellm.Runtime.World.Agreement.{SameAccess, SameAccess-refl}
use tellm.Runtime.Routing.{
  Route, command_route, route_of, context, parsed, message_seconds, route_command,
}

-- What `resolve` has checked of an action: a pinned model is one of the configuration.
abbrev pub Names : CommandAction → Config → Type 0
Names action config = pins_known (model_keys config.models) action ≡ true

-- The action of a route, if it has one, was checked against a configuration.
abbrev pub IsChecked : Route → Config → Type 0
IsChecked (command_route action) config = Names action config
IsChecked _ config = Unit

route_of-IsChecked :
    (k : KnownCommand) (args : Text) (c : CommandContext) (config : Config)
    (o : Option CommandAction)
    → c.model_keys ≡ model_keys config.models
    → resolve k args c ≡ o
    → IsChecked (route_of o) config
unfolding route_of
route_of-IsChecked k args c config none e h = tt
route_of-IsChecked k args c config (some action) e h =
    rw (← e) (resolve-pins_known k args c action h)

parsed-IsChecked :
    (now : AccessTime) (k date : I64) (sender : Option I64) (w : World) (r : ParsedRoute)
    → SameAccess w (parsed alone now k date sender w r).1
      × IsChecked (parsed alone now k date sender w r).0.1 w.config
unfolding parsed context
parsed-IsChecked now k date sender w user_message = (SameAccess-refl w, tt)
parsed-IsChecked now k date sender w ignore = (SameAccess-refl w, tt)
parsed-IsChecked now k date sender w (command c args) = (
  record { same_config = refl; same_access = refl; same_file = refl },
  route_of-IsChecked c args (context k sender (message_seconds date) now w w) w.config _ refl refl,
)

pub route_command-IsChecked :
    (now : AccessTime) (bot : Option Text) (k : I64) (text : Text) (date : I64)
    (sender : Option I64) (w : World)
    → SameAccess w (route_command alone now bot k text date sender w).1
      × (((route_command alone now bot k text date sender w).0.0 ≡ none)
          → (chat_is_allowed k w ≡ true)
            × IsChecked (route_command alone now bot k text date sender w).0.1 w.config)
unfolding route_command
route_command-IsChecked now bot k text date sender w = elim (Bool-cases (chat_is_allowed k w)) [
  | inl allowed ↦
      let (same, checked) = parsed-IsChecked now k date sender w (parse text bot) in
      rw allowed (same, λ h. (refl, checked))
  | inr denied ↦ rw denied (SameAccess-refl w, λ h. cc)
]
