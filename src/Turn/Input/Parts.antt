-- ===== src/Turn/Input/Parts.antt =====
-- When a message is input for a turn, and how large its attachments are.
use tellm.Base.{
  ℕ, ◌≤◌, ◌≡◌, refl, ◌∙◌, Bool, true, false, ◌||◌, Option, none, some, List, [], ◌∷◌, ◌++◌, arith,
  Text, length, inl, inr, ◌⊎◌, ◌↔◌, ◌^◌, I64, is_some, leb, ltb, if◌then◌else◌, Bool-cases,
}
use tellm.Core.{ContentPart}
use tellm.Telegram.{TelegramError}
use tellm.Telegram.Message.{PhotoSize, IncomingMessage, Document}
use tellm.Turn.Input.{
  Fallible, ok, failed, attachment_too_large, max_attachment_bytes, message_text, message_has_input,
  has_text, has_photo, largest_photo, validate_announced, validate_attachment_size, fetched_bytes,
  checked_bytes, download_attachment, text_parts, image_of, photo_parts, utf8_part, document_of,
  document_parts, join_parts, content_parts_from_message,
}

abbrev pub is_nonempty {ℓ} : {A : Type ℓ} → List A → Bool
is_nonempty [] = false
is_nonempty (x ∷ xs) = true

is_nonempty-append :
    (xs ys : List ContentPart) → is_nonempty (xs ++ ys) ≡ (is_nonempty xs || is_nonempty ys)
is_nonempty-append [] ys = refl
is_nonempty-append (x ∷ xs) ys = refl

joined :
    (texts ps ds parts : List ContentPart)
    → parts ≡ texts ++ ps ++ ds
    → is_nonempty parts ≡ (is_nonempty texts || is_nonempty ps || is_nonempty ds)
joined texts ps ds parts h =
    rw (h, is_nonempty-append (texts ++ ps) ds, is_nonempty-append texts ps) refl

-- The size that Telegram announced, zero if there is none or it is negative.
abbrev pub announced_bytes : Option I64 → ℕ
announced_bytes none = 0
announced_bytes (some size) = if ltb size (2 ^ 63) then size else 0

or_both : {a b c d : Bool} → a ≡ b → c ≡ d → (a || c) ≡ (b || d)
or_both h i = cc

-- `message_has_input` looks at the list of sizes, the input at the largest of them.
has_photo-largest_photo :
    (photos : Option (List PhotoSize)) → is_some (largest_photo photos) ≡ has_photo photos
unfolding largest_photo has_photo
has_photo-largest_photo none = refl
has_photo-largest_photo (some []) = refl
has_photo-largest_photo (some (p ∷ ps)) = refl

module _ (get_file_bytes : Text → ℕ → TelegramError ⊎ List ℕ) (base64 : List ℕ → Text)
    (from_utf8 : List ℕ → Option Text) where
  text_parts_lem :
      (t : Option Text) → is_nonempty (text_parts get_file_bytes base64 from_utf8 t) ≡ has_text t
  unfolding text_parts has_text
  text_parts_lem none = refl
  text_parts_lem (some t) = ground arith

  image_of_lem :
      (media_type : Text) (bytes : Fallible (List ℕ)) (parts : List ContentPart)
      → image_of get_file_bytes base64 from_utf8 media_type bytes ≡ ok parts
      → is_nonempty parts ≡ true
  unfolding image_of
  image_of_lem media_type bytes parts h = ground arith

  photo_parts_lem :
      (photo : Option PhotoSize) (parts : List ContentPart)
      → photo_parts get_file_bytes base64 from_utf8 photo ≡ ok parts
      → is_nonempty parts ≡ is_some photo
  unfolding photo_parts
  photo_parts_lem none parts h = ground arith
  photo_parts_lem (some photo) parts h = image_of_lem _ _ parts h

  document_of_lem :
      (d : Document) (media_type : Text) (bytes : Fallible (List ℕ)) (parts : List ContentPart)
      → document_of get_file_bytes base64 from_utf8 d media_type bytes ≡ ok parts
      → is_nonempty parts ≡ true
  unfolding document_of utf8_part
  document_of_lem d media_type bytes parts h = ground arith

  document_parts_lem :
      (d : Option Document) (parts : List ContentPart)
      → document_parts get_file_bytes base64 from_utf8 d ≡ ok parts
      → is_nonempty parts ≡ is_some d
  unfolding document_parts
  document_parts_lem none parts h = ground arith
  document_parts_lem (some d) parts h = document_of_lem d _ _ parts h

  join_parts_lem :
      (texts : List ContentPart) (photos documents : Fallible (List ContentPart))
      (parts : List ContentPart)
      → join_parts get_file_bytes base64 from_utf8 texts photos documents ≡ ok parts
      → (ps ds : List ContentPart) × (photos ≡ ok ps)
        × (documents ≡ ok ds)
        × (parts ≡ texts ++ ps ++ ds)
  unfolding join_parts
  join_parts_lem texts (failed error) documents parts h = absurd cc
  join_parts_lem texts (ok photos) (failed error) parts h = absurd cc
  join_parts_lem texts (ok photos) (ok documents) parts h = (photos, documents, refl, refl, cc)

  -- When the parts of a message could be read, there is one exactly if the message counts as input:
  -- `message_has_input` and `content_parts_from_message` agree.
  pub content_parts_from_message-has_input :
      (message : IncomingMessage) (parts : List ContentPart)
      → content_parts_from_message get_file_bytes base64 from_utf8 message ≡ ok parts
      → is_nonempty parts ≡ message_has_input message
  unfolding content_parts_from_message message_has_input
  content_parts_from_message-has_input message parts h =
      let (ps, ds, photos, documents, all) = join_parts_lem _ _ _ parts h in
      let texts = text_parts get_file_bytes base64 from_utf8 (message_text message) in
      joined texts ps ds parts all
      ∙ or_both
          (or_both (text_parts_lem (message_text message))
            (photo_parts_lem _ ps photos ∙ has_photo-largest_photo message.photo))
          (document_parts_lem message.document ds documents)

  fetched_bytes_iff :
      (kind : Text) (answer : TelegramError ⊎ List ℕ) (bytes : List ℕ)
      → (fetched_bytes kind answer ≡ ok bytes)
        ↔ ((length bytes ≤ max_attachment_bytes) × (answer ≡ inr bytes))
  unfolding fetched_bytes checked_bytes validate_attachment_size
  fetched_bytes_iff kind (inl error) bytes = (λ h. absurd cc, λ h. absurd cc)
  fetched_bytes_iff kind (inr found) bytes = (λ h. ground arith, λ h. ground (arith, h.0, h.1))

  validate_announced_lem :
      (kind : Text) (announced_size : Option I64)
      → validate_announced kind announced_size ≡ (
          if leb (announced_bytes announced_size) max_attachment_bytes
          then none
          else some (attachment_too_large kind (announced_bytes announced_size)))
  unfolding validate_announced validate_attachment_size
  validate_announced_lem kind none = refl
  validate_announced_lem kind (some size) = ground arith

  -- An attachment is downloaded, with these bytes, exactly if its announced size, taken as zero when
  -- there is none or a negative one, is at most 20 MiB, the file, asked for with that limit, is
  -- answered with these bytes, and these are at most 20 MiB too.
  pub download_attachment_lem :
      (file_id kind : Text) (announced_size : Option I64) (bytes : List ℕ)
      → (download_attachment get_file_bytes base64 from_utf8 file_id announced_size kind ≡ ok bytes)
        ↔ ((announced_bytes announced_size ≤ max_attachment_bytes)
            × (length bytes ≤ max_attachment_bytes)
            × (get_file_bytes file_id max_attachment_bytes ≡ inr bytes))
  unfolding download_attachment
  download_attachment_lem file_id kind announced_size bytes =
      let fetched = fetched_bytes_iff kind (get_file_bytes file_id max_attachment_bytes) bytes in
      elim (Bool-cases (leb (announced_bytes announced_size) max_attachment_bytes)) [
        | inl small ↦
            rw (download_attachment, validate_announced_lem kind announced_size, small)
              (
                λ h. (ground (arith, small), (fetched.0 h).0, (fetched.0 h).1),
                λ h. fetched.1 (h.1, h.2),
              )
        | inr large ↦
            rw (download_attachment, validate_announced_lem kind announced_size, large)
              (λ h. absurd cc, λ h. absurd (ground (arith, large, h.0)))
      ]
