-- ===== src/Telegram/Delivery.antt =====
-- What of a message Telegram has accepted when sending it ends.
mod Pieces
pub use Pieces.{
  Piece, rich, html, plain, piece_text, piece_request, accepted, IsComplete, Delivered,
  DeliveredSome,
}
use Pieces.{rejected, whole, try_next-Delivered, try_next_part-Delivered}
use tellm.Base.{
  ◌<◌, ◌≡◌, refl, sym, ap, ◌∙◌, ◌⊎◌, inl, inr, Option, none, some, List, [], ◌∷◌, ◌++◌, arith, Text,
  length, concat, All, append-nil, append_assoc, true, Bool-cases, is_some, map, I64, concat-append,
  subst,
}
use tellm.Telegram.Chunks.Cover.{IsChunk, chunk_text-chunks}
use tellm.Telegram.Markdown.{markdown_to_html}
use tellm.Telegram.{
  TelegramError, Request, rich_message, html_message, plain_message, Posted, Sent,
  should_fallback_from_rich_message_error, should_fallback_from_html_message_error, after_html,
  send_legacy_message_part, send_legacy_parts, try_next, legacy_chunks, after_rich, send_parts,
  try_next_part, message_body, sent_chunks, send_message, rich_chunk_size, text_chunk_size,
}

module _ (to_lowercase : Text → Text) (post : Posted → Request → Option TelegramError) where
  plain_part-Delivered :
      (chat_id : I64) (posted : Posted) (part : Text) (result : Option TelegramError)
      → Delivered chat_id posted part ((plain_message chat_id part, result) ∷ posted, result)
  plain_part-Delivered chat_id posted part none = whole chat_id posted (plain part)
  plain_part-Delivered chat_id posted part (some error) =
      rejected chat_id posted part (plain_message chat_id part) error

  html_part-Delivered :
      (chat_id : I64) (posted : Posted) (part : Text) (result : Option TelegramError)
      → Delivered chat_id posted part (
          after_html to_lowercase post chat_id part
            ((html_message chat_id (markdown_to_html part), result) ∷ posted, result))
  unfolding after_html
  html_part-Delivered chat_id posted part none = whole chat_id posted (html part)
  html_part-Delivered chat_id posted part (some error) =
      let request = html_message chat_id (markdown_to_html part) in
      let refused : Posted = (request, some error) ∷ posted in
      elim (Bool-cases (should_fallback_from_html_message_error to_lowercase post error)) [
        | inl falls_back ↦
            rw falls_back (
              plain_part-Delivered chat_id refused part (post refused (plain_message chat_id part)))
        | inr stays ↦ rw stays (rejected chat_id posted part request error)
      ]

  legacy_parts-Delivered :
      (chat_id : I64) (parts : List Text) (posted : Posted)
      → Delivered chat_id posted
          (concat parts)
          (send_legacy_parts to_lowercase post chat_id parts posted)
  unfolding send_legacy_parts send_legacy_message_part
  legacy_parts-Delivered chat_id [] posted =
      ([], [], sym (append-nil (accepted posted)), refl, inl (refl, refl))
  legacy_parts-Delivered chat_id (part ∷ parts) posted =
      try_next-Delivered chat_id posted part (concat parts)
        (send_legacy_message_part to_lowercase post chat_id part posted)
        (λ after. send_legacy_parts to_lowercase post chat_id parts after)
        (html_part-Delivered chat_id posted part
          (post posted (html_message chat_id (markdown_to_html part))))
        (λ middle. legacy_parts-Delivered chat_id parts middle)

  rich_part-Delivered :
      (chat_id : I64) (posted : Posted) (part : Text) (result : Option TelegramError)
      → 0 < length part
      → DeliveredSome chat_id posted part (
          after_rich to_lowercase post chat_id part
            ((rich_message chat_id part, result) ∷ posted, result))
  unfolding after_rich legacy_chunks
  rich_part-Delivered chat_id posted part none nonempty =
      (((rich_message chat_id part, none) ∷ posted, none), refl, whole chat_id posted (rich part))
  rich_part-Delivered chat_id posted part (some error) nonempty =
      let request = rich_message chat_id part in
      let refused : Posted = (request, some error) ∷ posted in
      let (chunks, cut, joined, all) =
        chunk_text-chunks part text_chunk_size (omega arith) nonempty in
      elim (Bool-cases (should_fallback_from_rich_message_error to_lowercase post error)) [
        | inl falls_back ↦
            rw (falls_back, cut)
              (
                send_legacy_parts to_lowercase post chat_id chunks refused,
                refl,
                subst
                    (λ body.
                      Delivered chat_id refused body
                        (send_legacy_parts to_lowercase post chat_id chunks refused))
                    joined (legacy_parts-Delivered chat_id chunks refused),
              )
        | inr stays ↦
            rw stays ((refused, some error), refl, rejected chat_id posted part request error)
      ]

  parts-Delivered :
      (chat_id : I64) (parts : List Text) (posted : Posted)
      → All (IsChunk rich_chunk_size) parts
      → DeliveredSome chat_id posted
          (concat parts)
          (send_parts to_lowercase post chat_id parts posted)
  unfolding send_parts
  parts-Delivered chat_id [] posted h =
      ((posted, none), refl, ([], [], sym (append-nil (accepted posted)), refl, inl (refl, refl)))
  parts-Delivered chat_id (part ∷ parts) posted (h, hs) =
      let request = rich_message chat_id part in
      let (sent, e, first) = rich_part-Delivered chat_id posted part (post posted request) h.0 in
      rw e (
        try_next_part-Delivered chat_id posted part (concat parts) sent
          (λ after. send_parts to_lowercase post chat_id parts after) first
          (λ middle. parts-Delivered chat_id parts middle hs))

  message_body-nonempty : (text : Text) → 0 < length (message_body text)
  unfolding message_body
  message_body-nonempty text = ground arith

  -- Sending a message never panics. What Telegram has accepted behind it are pieces, each as rich
  -- text, as HTML or as plain text, whose texts put together in order are the front of the message's
  -- body, and all of it unless an error is returned.
  pub send_message-Delivered :
      (chat_id : I64) (text : Text) (posted : Posted)
      → (sent : Sent) × (send_message to_lowercase post chat_id text posted ≡ some sent)
        × Delivered chat_id posted (message_body text) sent
  unfolding send_message sent_chunks
  send_message-Delivered chat_id text posted =
      let (chunks, cut, joined, all) =
        chunk_text-chunks (message_body text) rich_chunk_size (omega arith)
          (message_body-nonempty text) in
      let (sent, e, h) = parts-Delivered chat_id chunks posted all in
      rw cut (sent, e, subst (λ body. Delivered chat_id posted body sent) joined h)
