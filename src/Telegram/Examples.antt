-- ===== src/Telegram/Examples.antt =====
-- A bot interface that refuses rich messages, and a message of two lines.
use tellm.Base.{
  ℕ, ◌<◌, ◌≤◌, ◌≡◌, refl, Option, none, some, List, [], ◌∷◌, ◌++◌, Text, codes, concat, All, length,
  arith, map, to_ascii_lowercase,
}
use tellm.Telegram.{
  TelegramError, api, Request, rich_message, html_message, plain_message, Posted, Sent,
  message_body, send_message,
}
use tellm.Telegram.Chunks.{chunk_text}
use tellm.Telegram.Chunks.Breaks.{Breaks, chunk_text-Breaks}
use tellm.Telegram.Chunks.Cover.{IsChunk, chunk_text-chunks}
use tellm.Telegram.Delivery.{Delivered, send_message-Delivered}
use tellm.Telegram.Strings.{escape_html}
use tellm.Telegram.Strings.Escaping.{IsInert, html_text, html_text-escape_html}
use tellm.Telegram.Markdown.{markdown_to_html}

abbrev server : Posted → Request → Option TelegramError
server posted (rich_message chat_id markdown) = some (api 404 (codes "Not Found"))
server posted (html_message chat_id text) = none
server posted (plain_message chat_id text) = none

abbrev message : Text
message = codes "a **b**\n"

send_message_example :
    (sent : Sent) × (send_message to_ascii_lowercase server 7 message [] ≡ some sent)
    × Delivered 7 [] (message_body message) sent
send_message_example = send_message-Delivered to_ascii_lowercase server 7 message []

-- The rich message is refused, and its text is sent as HTML.
fallback_test :
    send_message to_ascii_lowercase server 7 message []
    ≡ some (
      (html_message 7 (codes "a <b>b</b>"), none)
          ∷ (rich_message 7 (codes "a **b**"), some (api 404 (codes "Not Found")))
          ∷ [],
      none,
    )
unfolding send_message to_ascii_lowercase tellm.Telegram.send_legacy_parts
fallback_test = refl

abbrev lines : Text
lines = codes "one\ntwo\nthree"

chunk_text_example :
    (chunks : List Text) × (chunk_text lines 9 ≡ some chunks)
    × (concat chunks ≡ lines)
    × All (IsChunk 9) chunks
chunk_text_example = chunk_text-chunks lines 9 (omega arith) (omega arith)

chunk_text-Breaks_example :
    (chunks : List Text) × (chunk_text lines 9 ≡ some chunks) × Breaks 9 chunks
chunk_text-Breaks_example = chunk_text-Breaks lines 9 (omega arith)

chunk_text_test : chunk_text lines 9 ≡ some (codes "one\ntwo\n" ∷ codes "three" ∷ [])
unfolding chunk_text
chunk_text_test = refl

markdown_test :
    markdown_to_html (codes "# T\n```rs\n1<2\n```\n[x](https://y.z) __q__ `c`")
    ≡ codes
        "<b>T</b>\n<pre><code>1&lt;2</code></pre>\n<a href=\"https://y.z\">x</a> <b>q</b> <code>c</code>"
unfolding markdown_to_html tellm.Base.Decimal.decimal tellm.Base.text_eq
markdown_test = refl

html_text-escape_html_example :
    All IsInert (escape_html (codes "<b title='x'>&amp;"))
    × (html_text (escape_html (codes "<b title='x'>&amp;")) ≡ some (codes "<b title='x'>&amp;"))
html_text-escape_html_example = html_text-escape_html (codes "<b title='x'>&amp;")

-- A text that was not escaped is shown as something else, or not at all.
raw_test : html_text (codes "&amp;lt;") ≡ some (codes "&lt;")
unfolding html_text
raw_test = refl
