-- ===== src/Turn/Input.antt =====
-- src/model_turn.rs: the parts of a message that are the input of a turn.
pub mod Photo
pub mod Parts
mod Examples
use tellm.Base.{
  is_blank, ◌⊎◌, inl, inr, ℕ, ◌+◌, ◌*◌, ◌-◌, ◌^◌, Bool, true, false, not, ◌||◌, ◌&&◌, Option, none,
  some, List, [], ◌∷◌, ◌++◌, Text, codes, length, is_some, or_else, unwrap_or, ltb, leb, ◌==◌,
  if◌then◌else◌, trim, text_eq, to_ascii_lowercase, I64,
}
use mathlib.Core.List.{reverse}
use tellm.Core.{ContentPart, text, image, document}
use tellm.Telegram.{TelegramError, file_too_large}
use tellm.Telegram.Strings.{strip}
use tellm.Telegram.Message.{IncomingMessage, PhotoSize, Document}

abbrev pub max_attachment_bytes : ℕ
max_attachment_bytes = 20 * 1024 * 1024

-- Why a message has no input; the source keeps the text of each.
pub data InputError : Type 0 where
  attachment_too_large : Text → ℕ → InputError
  download_failed : TelegramError → InputError
  not_utf8 : InputError

pub data Fallible (A : Type 0) : Type 0 where
  ok : A → Fallible A
  failed : InputError → Fallible A

pub message_text : IncomingMessage → Option Text
message_text message = or_else message.text message.caption

pub has_text : Option Text → Bool
unfolding is_blank
has_text none = false
has_text (some t) = not (is_blank t)

pub has_photo : Option (List PhotoSize) → Bool
has_photo none = false
has_photo (some []) = false
has_photo (some (p ∷ ps)) = true

pub message_has_input : IncomingMessage → Bool
unfolding message_text has_text has_photo
message_has_input message =
    has_text (message_text message) || has_photo message.photo || is_some message.document

-- Whether an `i64` is negative, and its magnitude.
pub signed : I64 → Bool × ℕ
signed n = if ltb n (2 ^ 63) then (false, n) else (true, 2 ^ 64 - n)

pub product : Bool × ℕ → Bool × ℕ → Bool × ℕ
product (s, m) (t, n) = (not ((s && t) || (not s && not t)), m * n)

-- `<=` of signed numbers.
pub leb_signed : Bool × ℕ → Bool × ℕ → Bool
leb_signed (false, m) (false, n) = leb m n
leb_signed (true, m) (true, n) = leb n m
leb_signed (true, m) (false, n) = true
leb_signed (false, m) (true, n) = m == 0 && n == 0

-- `width as i128 * height as i128`
pub pixels : PhotoSize → Bool × ℕ
unfolding signed product
pixels photo = product (signed photo.width) (signed photo.height)

-- `max_by_key`, which returns the last of several maxima; `best` is the one so far.
pub largest_from : PhotoSize → List PhotoSize → PhotoSize
unfolding pixels leb_signed
largest_from best [] = best
largest_from best (photo ∷ photos) =
    largest_from (if leb_signed (pixels best) (pixels photo) then photo else best) photos

pub largest_photo : Option (List PhotoSize) → Option PhotoSize
unfolding largest_from
largest_photo none = none
largest_photo (some []) = none
largest_photo (some (photo ∷ photos)) = some (largest_from photo photos)

pub validate_attachment_size : Text → ℕ → Option InputError
validate_attachment_size kind size =
    if ltb max_attachment_bytes size then some (attachment_too_large kind size) else none

-- The check of the announced size, which ignores a negative one.
pub validate_announced : Text → Option I64 → Option InputError
unfolding validate_attachment_size
validate_announced kind none = none
validate_announced kind (some size) =
    if ltb size (2 ^ 63) then validate_attachment_size kind size else none

pub checked_bytes : Text → Option InputError → List ℕ → Fallible (List ℕ)
checked_bytes kind none bytes = ok bytes
checked_bytes kind (some error) bytes = failed error

pub download_error : Text → TelegramError → InputError
download_error kind (file_too_large size max_bytes) = attachment_too_large kind size
download_error kind error = download_failed error

pub fetched_bytes : Text → TelegramError ⊎ List ℕ → Fallible (List ℕ)
unfolding checked_bytes validate_attachment_size download_error
fetched_bytes kind (inl error) = failed (download_error kind error)
fetched_bytes kind (inr bytes) =
    checked_bytes kind (validate_attachment_size kind (length bytes)) bytes

-- `ends_with(".txt")` of a name in lower case.
pub ends_with_txt : Option Text → Bool
unfolding strip
ends_with_txt none = false
ends_with_txt (some name) = is_some (strip (codes "txt.") (reverse (to_ascii_lowercase name)))

pub is_text_document : Document → Text → Bool
unfolding ends_with_txt
is_text_document d media_type = text_eq (codes "text/plain") media_type || ends_with_txt d.file_name

-- `Telegram::get_file_bytes` with its limit, base64 and `String::from_utf8`.
module _ (get_file_bytes : Text → ℕ → TelegramError ⊎ List ℕ) (base64 : List ℕ → Text)
    (from_utf8 : List ℕ → Option Text) where
  pub download_attachment : Text → Option I64 → Text → Fallible (List ℕ)
  unfolding validate_announced fetched_bytes
  download_attachment file_id announced_size kind = elim (validate_announced kind announced_size) [
    | some error ↦ failed error
    | none ↦ fetched_bytes kind (get_file_bytes file_id max_attachment_bytes)
  ]

  pub text_parts : Option Text → List ContentPart
  unfolding is_blank
  text_parts none = []
  text_parts (some t) = if is_blank t then [] else text (trim t) ∷ []

  pub image_of : Text → Fallible (List ℕ) → Fallible (List ContentPart)
  image_of media_type (failed error) = failed error
  image_of media_type (ok bytes) = ok (image media_type (base64 bytes) ∷ [])

  pub photo_parts : Option PhotoSize → Fallible (List ContentPart)
  unfolding image_of download_attachment
  photo_parts none = ok []
  photo_parts (some photo) =
      image_of (codes "image/jpeg")
        (download_attachment photo.file_id photo.file_size (codes "photo"))

  pub utf8_part : Option Text → Fallible (List ContentPart)
  utf8_part none = failed not_utf8
  utf8_part (some t) = ok (text t ∷ [])

  pub document_of : Document → Text → Fallible (List ℕ) → Fallible (List ContentPart)
  unfolding utf8_part is_text_document strip
  document_of d media_type (failed error) = failed error
  document_of d media_type (ok bytes) =
      if is_text_document d media_type
      then utf8_part (from_utf8 bytes)
      else if is_some (strip (codes "image/") media_type)
      then ok (image media_type (base64 bytes) ∷ [])
      else ok (document media_type (base64 bytes) d.file_name ∷ [])

  pub document_parts : Option Document → Fallible (List ContentPart)
  unfolding document_of download_attachment
  document_parts none = ok []
  document_parts (some d) =
      document_of d (unwrap_or d.mime_type (codes "application/octet-stream"))
        (download_attachment d.file_id d.file_size (codes "document"))

  pub join_parts :
      List ContentPart
      → Fallible (List ContentPart)
      → Fallible (List ContentPart)
      → Fallible (List ContentPart)
  join_parts texts (failed error) documents = failed error
  join_parts texts (ok photos) (failed error) = failed error
  join_parts texts (ok photos) (ok documents) = ok (texts ++ photos ++ documents)

  pub content_parts_from_message : IncomingMessage → Fallible (List ContentPart)
  unfolding message_text text_parts photo_parts document_parts largest_photo join_parts
  content_parts_from_message message =
      join_parts (text_parts (message_text message)) (photo_parts (largest_photo message.photo))
        (document_parts message.document)
