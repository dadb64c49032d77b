-- ===== src/Turn/Input/Examples.antt =====
-- A photo in two sizes, and a message with it and a caption.
use tellm.Base.{
  ◌≤◌, ◌↔◌, ltb, length, if◌then◌else◌, Text, ◌⊎◌, inl, inr, Option, ◌≡◌, refl, false, none, true,
  List, [], ◌∷◌, ◌++◌, drop, concat, codes, some, ℕ,
}
use tellm.Core.{ContentPart, text, image}
use tellm.Telegram.{TelegramError, file_too_large}
use tellm.Telegram.Message.{IncomingMessage, PhotoSize}
use tellm.Turn.Input.{
  ok, content_parts_from_message, message_has_input, download_attachment, max_attachment_bytes,
}
use tellm.Turn.Input.Parts.{
  is_nonempty, content_parts_from_message-has_input, announced_bytes, download_attachment_lem,
}

abbrev small : PhotoSize
small = record { file_id = codes "s"; width = 90; height = 60; file_size = none }

abbrev large : PhotoSize
large = record { file_id = codes "l"; width = 1280; height = 853; file_size = some 90000 }

-- A server on which each file is its own name, and an encoding that keeps the bytes.
abbrev file_bytes : Text → ℕ → TelegramError ⊎ List ℕ
file_bytes file_id max_bytes =
    if ltb max_bytes (length file_id)
    then inl (file_too_large (length file_id) max_bytes)
    else inr file_id

abbrev encode : List ℕ → Text
encode bytes = bytes

abbrev decode : List ℕ → Option Text
decode bytes = some bytes

abbrev captioned : IncomingMessage
captioned = record {
  chat = record { id = 7; title = none };
  from = none;
  date = 1000;
  text = none;
  caption = some (codes " look ");
  photo = some (small ∷ large ∷ []);
  document = none;
}

abbrev captioned_parts : List ContentPart
captioned_parts = text (codes "look") ∷ image (codes "image/jpeg") (codes "l") ∷ []

read_parts : content_parts_from_message file_bytes encode decode captioned ≡ ok captioned_parts
unfolding content_parts_from_message tellm.Base.text_eq
read_parts = refl

has_input_example : is_nonempty captioned_parts ≡ message_has_input captioned
has_input_example =
    content_parts_from_message-has_input file_bytes encode decode captioned captioned_parts
      read_parts

downloaded_test :
    download_attachment file_bytes encode decode (codes "l") (some 90000) (codes "photo")
    ≡ ok (codes "l")
unfolding download_attachment
downloaded_test = refl

download_attachment_example :
    (download_attachment file_bytes encode decode (codes "l") (some 90000) (codes "photo")
      ≡ ok (codes "l"))
    ↔ ((announced_bytes (some 90000) ≤ max_attachment_bytes)
        × (length (codes "l") ≤ max_attachment_bytes)
        × (file_bytes (codes "l") max_attachment_bytes ≡ inr (codes "l")))
download_attachment_example =
    download_attachment_lem file_bytes encode decode (codes "l") (codes "photo") (some 90000)
      (codes "l")
