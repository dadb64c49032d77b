-- ===== src/Config/Validate.antt =====
-- crates/tellm-config/src/lib.rs, `Config::validate`. URL parsing is a parameter.
pub mod Safety
pub mod Pins
mod Examples
use tellm.Base.{
  is_blank, ℕ, ◌/◌, ◌^◌, Bool, true, false, not, ◌||◌, ◌&&◌, Option, none, some, List, [], ◌∷◌,
  ◌++◌, Text, codes, is_some, ◌==◌, if◌then◌else◌, trim, text_eq, is_whitespace,
  eq_ignore_ascii_case, I64,
}
use tellm.Base.IdMap
use tellm.Base.IdMap.{IdMap}
use tellm.Config.{WireFormat, anthropic, responses, compat, gemini, ModelConfig, Config}

-- `url::Host`, with an address as its number.
pub data Host : Type 0 where
  domain : Text → Host
  ipv4 ipv6 : ℕ → Host

-- What the code reads of a `url::Url`.
pub record Url : Type 0 where
  pub username : Text
  pub password : Option Text
  pub scheme : Text
  pub host : Option Host

-- The problems, by the key of their model; the source keeps the text of each.
pub data Problem : Type 0 where
  undefined_default : Text → Problem
  empty_key : Problem
  whitespace_in_key empty_model_name missing_base_url empty_base_url invalid_base_url :
      Text → Problem
  empty_secret reserved_secret missing_secret : Text → Problem
  embedded_credentials insecure_credentials insecure_url : Text → Problem
  pinned_twice : I64 → Text → Text → Problem

pub has_whitespace : Text → Bool
unfolding is_whitespace
has_whitespace [] = false
has_whitespace (c ∷ s) = is_whitespace c || has_whitespace s

starts_with : Text → Text → Bool
starts_with [] s = true
starts_with (p ∷ ps) [] = false
starts_with (p ∷ ps) (c ∷ s) = p == c && starts_with ps s

pub is_reserved_name : Text → Bool
unfolding starts_with
is_reserved_name = starts_with (codes "__tellm_prefer_credentials_file__:")

pub is_compat : WireFormat → Bool
is_compat compat = true
is_compat anthropic = false
is_compat responses = false
is_compat gemini = false

-- `Ipv4Addr::is_loopback` is 127.0.0.0/8, `Ipv6Addr::is_loopback` is ::1.
is_loopback_host : Option Host → Bool
is_loopback_host none = false
is_loopback_host (some (domain host)) = eq_ignore_ascii_case host (codes "localhost")
is_loopback_host (some (ipv4 address)) = address / 2 ^ 24 == 127
is_loopback_host (some (ipv6 address)) = address == 1

pub is_loopback_http_url : Url → Bool
unfolding is_loopback_host
is_loopback_http_url url = text_eq (codes "http") url.scheme && is_loopback_host url.host

pub report_if : Bool → Problem → List Problem
report_if true problem = problem ∷ []
report_if false problem = []

pub key_problems : Text → List Problem
unfolding is_blank has_whitespace report_if
key_problems key =
    if is_blank key then empty_key ∷ [] else report_if (has_whitespace key) (whitespace_in_key key)

-- Whether there is a secret, and what is wrong with it.
pub check_secret : Text → Option Text → Bool × List Problem
unfolding is_blank is_reserved_name
check_secret key none = (false, [])
check_secret key (some secret_name) =
    if is_blank secret_name
    then (false, empty_secret key ∷ [])
    else if is_reserved_name secret_name
    then (false, reserved_secret key ∷ [])
    else (true, [])

pub has_credentials : Url → Bool
has_credentials url = not (text_eq url.username []) || is_some url.password

pub url_problems : Text → ModelConfig → Bool → Option Url → List Problem
unfolding report_if has_credentials is_loopback_http_url is_compat
url_problems key model has_secret none = []
url_problems key model has_secret (some url) =
    let exposed =
      not (is_compat model.wire_format)
      || not (text_eq (codes "http") url.scheme)
      || (not (is_loopback_http_url url) && not model.allow_insecure_http) in
    let scheme_problems =
      if has_secret then insecure_credentials key ∷ [] else report_if exposed (insecure_url key) in
    report_if (has_credentials url) (embedded_credentials key)
    ++ (if text_eq (codes "https") url.scheme then [] else scheme_problems)

-- A chat that was pinned before is a problem.
pin_problem : I64 → Text → Option Text → List Problem
pin_problem chat_id key none = []
pin_problem chat_id key (some previous) = pinned_twice chat_id previous key ∷ []

-- `pinned.insert(..)`, for each chat of a model.
pub pin_chats : Text → List I64 → IdMap Text → List Problem × IdMap Text
unfolding pin_problem
pin_chats key [] pinned = ([], pinned)
pin_chats key (chat_id ∷ chat_ids) pinned =
    let (problems, after) = pin_chats key chat_ids (IdMap.insert chat_id key pinned) in
    (pin_problem chat_id key (IdMap.get chat_id pinned) ++ problems, after)

defines : Text → List (Text × ModelConfig) → Bool
defines key [] = false
defines key ((other, model) ∷ models) = text_eq other key || defines key models

-- `url::Url::parse`
module _ (parse_url : Text → Option Url) where
  pub parse_base_url : Text → Option Text → Option Url × List Problem
  unfolding is_blank
  parse_base_url key none = (none, [])
  parse_base_url key (some base_url) =
      if is_blank base_url then (none, empty_base_url key ∷ []) else elim (parse_url base_url) [
        | some url ↦ (some url, [])
        | none ↦ (none, invalid_base_url key ∷ [])
      ]

  -- What is wrong with a model, its pinned chats aside.
  pub model_problems : Text → ModelConfig → List Problem
  unfolding key_problems parse_base_url check_secret url_problems
  model_problems key model =
      let (url, base_url_problems) = parse_base_url key model.base_url in
      let (has_secret, secret_problems) = check_secret key model.api_key_secret in
      key_problems key
      ++ report_if (is_blank model.model_name) (empty_model_name key)
      ++ report_if (is_compat model.wire_format && not (is_some model.base_url))
          (missing_base_url key)
      ++ base_url_problems
      ++ secret_problems
      ++ report_if
          (not (is_compat model.wire_format)
            && not has_secret
            && not (is_some model.api_key_secret))
          (missing_secret key)
      ++ url_problems key model has_secret url

  pub models_problems : List (Text × ModelConfig) → IdMap Text → List Problem
  unfolding model_problems pin_chats
  models_problems [] pinned = []
  models_problems ((key, model) ∷ models) pinned =
      let (pin_problems, after) = pin_chats key model.telegram_chat_ids pinned in
      model_problems key model ++ pin_problems ++ models_problems models after

  -- `Ok(())` is the empty list.
  pub validate : Config → List Problem
  unfolding models_problems defines report_if
  validate config =
      report_if (not (defines config.default_model config.models))
        (undefined_default config.default_model)
      ++ models_problems config.models []
