-- ===== src/Telegram.antt =====
-- crates/tellm-telegram/src/lib.rs: delivering a message to Telegram.
pub mod Chunks
pub mod Message
pub mod Strings
pub mod Markdown
mod Inline
pub mod Delivery
mod Examples
use tellm.Base.{
  ℕ, zero, suc, ◌+◌, Bool, true, false, ◌||◌, Option, none, some, List, [], ◌∷◌, ◌++◌, Text, codes,
  if◌then◌else◌, trim, I64,
}
use tellm.Base.Decimal.{decimal, i64_to_string}
use tellm.Telegram.Chunks.{chunk_text}
use tellm.Telegram.Strings.{find}
use tellm.Telegram.Markdown.{markdown_to_html}

pub data TelegramError : Type 0 where
  http : (message : Text) → TelegramError
  api : (code : I64) (description : Text) → TelegramError
  invalid_response : (message : Text) → TelegramError
  missing_file_path : TelegramError
  file_too_large : (size max_bytes : ℕ) → TelegramError
  unsupported_photo_media_type : TelegramError
  empty_model_picker : TelegramError

-- The texts of the `#[error]` attributes.
pub error_to_string : TelegramError → Text
unfolding decimal i64_to_string
error_to_string (http message) = codes "http error: " ++ message
error_to_string (api code description) =
    codes "telegram api error " ++ i64_to_string code ++ codes ": " ++ description
error_to_string (invalid_response message) =
    codes "telegram api returned invalid response: " ++ message
error_to_string missing_file_path = codes "telegram getFile response did not include file_path"
error_to_string (file_too_large size max_bytes) =
    codes "telegram file is too large ("
    ++ decimal size
    ++ codes " bytes; maximum "
    ++ decimal max_bytes
    ++ codes " bytes)"
error_to_string unsupported_photo_media_type =
    codes "unsupported Telegram photo media type; expected image/png, image/jpeg, or image/webp"
error_to_string empty_model_picker = codes "model picker requires at least one model"

abbrev pub text_chunk_size : ℕ
text_chunk_size = 3900

abbrev pub rich_chunk_size : ℕ
rich_chunk_size = 32000

-- The requests that deliver a part of a message.
pub data Request : Type 0 where
  rich_message : (chat_id : I64) (markdown : Text) → Request
  html_message : (chat_id : I64) (text : Text) → Request
  plain_message : (chat_id : I64) (text : Text) → Request

-- The requests posted so far, each with the error that it returned, the last one first.
abbrev pub Posted : Type 0
Posted = List (Request × Option TelegramError)

-- What was posted, and `none` for `Ok` or the error that is returned.
abbrev pub Sent : Type 0
Sent = Posted × Option TelegramError

contains_text : Text → Text → Bool
unfolding find
contains_text pattern text = elim (find pattern text) [ none ↦ false | some parts ↦ true ]

contains_any : List Text → Text → Bool
unfolding contains_text
contains_any [] text = false
contains_any (marker ∷ markers) text = contains_text marker text || contains_any markers text

-- The text that `send_message` delivers.
pub message_body : Text → Text
unfolding trim
message_body text = elim (trim text) [ [] ↦ codes "(empty response)" | c ∷ s ↦ c ∷ s ]

-- What follows is not sent behind an error.
pub try_next : Sent → (Posted → Sent) → Sent
try_next (posted, none) next = next posted
try_next (posted, some error) next = (posted, some error)

pub try_next_part : Option Sent → (Posted → Option Sent) → Option Sent
try_next_part none next = none
try_next_part (some (posted, none)) next = next posted
try_next_part (some (posted, some error)) next = some (posted, some error)

-- `str::to_lowercase`, and the outcome of a request behind those posted already.
module _ (to_lowercase : Text → Text) (post : Posted → Request → Option TelegramError) where
  pub should_fallback_from_rich_message_error : TelegramError → Bool
  unfolding contains_any error_to_string
  should_fallback_from_rich_message_error error =
      contains_any
        (codes "api error 404"
          ∷ codes "method not found"
          ∷ codes "can't parse"
          ∷ codes "cannot parse"
          ∷ codes "failed to parse"
          ∷ codes "can't find end"
          ∷ codes "unsupported start tag"
          ∷ codes "unsupported tag"
          ∷ [])
        (to_lowercase (error_to_string error))

  pub should_fallback_from_html_message_error : TelegramError → Bool
  unfolding contains_text error_to_string
  should_fallback_from_html_message_error error =
      let error_text = to_lowercase (error_to_string error) in
      contains_text (codes "parse entities") error_text
      || contains_text (codes "can't parse entities") error_text

  abbrev pub post_json : Posted → Request → Sent
  post_json posted request = ((request, post posted request) ∷ posted, post posted request)

  pub after_html : I64 → Text → Sent → Sent
  unfolding should_fallback_from_html_message_error
  after_html chat_id part (posted, none) = (posted, none)
  after_html chat_id part (posted, some error) =
      if should_fallback_from_html_message_error error
      then post_json posted (plain_message chat_id part)
      else (posted, some error)

  pub send_legacy_message_part : I64 → Text → Posted → Sent
  unfolding after_html markdown_to_html
  send_legacy_message_part chat_id part posted =
      after_html chat_id part (post_json posted (html_message chat_id (markdown_to_html part)))

  -- `send_legacy_message_part(..).await?` for each part.
  pub send_legacy_parts : I64 → List Text → Posted → Sent
  unfolding send_legacy_message_part try_next
  send_legacy_parts chat_id [] posted = (posted, none)
  send_legacy_parts chat_id (part ∷ parts) posted =
      try_next (send_legacy_message_part chat_id part posted)
        (λ after. send_legacy_parts chat_id parts after)

  -- `none` is the panic of `chunk_text`.
  pub legacy_chunks : I64 → Option (List Text) → Posted → Option Sent
  legacy_chunks chat_id none posted = none
  legacy_chunks chat_id (some parts) posted = some (send_legacy_parts chat_id parts posted)

  pub after_rich : I64 → Text → Sent → Option Sent
  unfolding should_fallback_from_rich_message_error legacy_chunks chunk_text
  after_rich chat_id part (posted, none) = some (posted, none)
  after_rich chat_id part (posted, some error) =
      if should_fallback_from_rich_message_error error
      then legacy_chunks chat_id (chunk_text part text_chunk_size) posted
      else some (posted, some error)

  pub send_parts : I64 → List Text → Posted → Option Sent
  unfolding after_rich try_next_part
  send_parts chat_id [] posted = some (posted, none)
  send_parts chat_id (part ∷ parts) posted =
      try_next_part (after_rich chat_id part (post_json posted (rich_message chat_id part)))
        (λ after. send_parts chat_id parts after)

  pub sent_chunks : I64 → Option (List Text) → Posted → Option Sent
  unfolding send_parts
  sent_chunks chat_id none posted = none
  sent_chunks chat_id (some parts) posted = send_parts chat_id parts posted

  pub send_message : I64 → Text → Posted → Option Sent
  unfolding message_body sent_chunks chunk_text
  send_message chat_id text posted =
      sent_chunks chat_id (chunk_text (message_body text) rich_chunk_size) posted
