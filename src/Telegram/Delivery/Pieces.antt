-- ===== src/Telegram/Delivery/Pieces.antt =====
-- The pieces of a message that Telegram has accepted, and what follows when more is sent.
use tellm.Base.{
  ◌≡◌, refl, sym, ap, ◌∙◌, ◌⊎◌, inl, inr, Option, none, some, List, [], ◌∷◌, ◌++◌, Text, concat,
  append-nil, append_assoc, true, is_some, map, I64, concat-append,
}
use tellm.Telegram.Markdown.{markdown_to_html}
use tellm.Telegram.{
  TelegramError, Request, rich_message, html_message, plain_message, Posted, Sent, try_next,
  try_next_part,
}

-- A piece of a message, in the form in which it reaches the chat.
pub data Piece : Type 0 where
  rich : Text → Piece
  html : Text → Piece
  plain : Text → Piece

abbrev pub piece_text : Piece → Text
piece_text (rich part) = part
piece_text (html part) = part
piece_text (plain part) = part

abbrev pub piece_request : I64 → Piece → Request
piece_request chat_id (rich part) = rich_message chat_id part
piece_request chat_id (html part) = html_message chat_id (markdown_to_html part)
piece_request chat_id (plain part) = plain_message chat_id part

abbrev add_accepted : Request → Option TelegramError → List Request → List Request
add_accepted request none before = before ++ request ∷ []
add_accepted request (some error) before = before

-- The requests that Telegram accepted, the first one first.
abbrev pub accepted : Posted → List Request
accepted [] = []
accepted ((request, result) ∷ posted) = add_accepted request result (accepted posted)

-- All of it was sent, or sending it ended with an error.
abbrev pub IsComplete : Option TelegramError → Text → Type 0
IsComplete result unsent = ((result ≡ none) × (unsent ≡ [])) ⊎ (is_some result ≡ true)

-- Pieces accepted one behind the other, which are the front of the body, or all of it.
abbrev pub Delivered : I64 → Posted → Text → Sent → Type 0
Delivered chat_id posted body sent =
    (pieces : List Piece) × (unsent : Text) × (accepted sent.0
      ≡ accepted posted ++ map (piece_request chat_id) pieces)
    × (concat (map piece_text pieces) ++ unsent ≡ body)
    × IsComplete sent.1 unsent

map-append : {A B : Type 0} (f : A → B) (xs ys : List A) → map f (xs ++ ys) ≡ map f xs ++ map f ys
map-append f [] ys = refl
map-append f (x ∷ xs) ys = ap (λ zs. f x ∷ zs) (map-append f xs ys)

-- Nothing of the body was accepted, because of an error.
pub rejected :
    (chat_id : I64) (posted : Posted) (body : Text) (request : Request) (error : TelegramError)
    → Delivered chat_id posted body ((request, some error) ∷ posted, some error)
rejected chat_id posted body request error =
    ([], body, sym (append-nil (accepted posted)), refl, inr refl)

-- One piece was accepted, which is the whole body.
pub whole :
    (chat_id : I64) (posted : Posted) (piece : Piece)
    → Delivered chat_id posted
        (piece_text piece)
        ((piece_request chat_id piece, none) ∷ posted, none)
whole chat_id posted piece = (
  piece ∷ [],
  [],
  refl,
  append-nil (piece_text piece ++ []) ∙ append-nil (piece_text piece),
  inl (refl, refl),
)

-- A request that was refused adds nothing.
behind_refused :
    (chat_id : I64) (posted : Posted) (body : Text) (request : Request) (error : TelegramError)
    (sent : Sent)
    → Delivered chat_id ((request, some error) ∷ posted) body sent
    → Delivered chat_id posted body sent
behind_refused chat_id posted body request error sent h = h

-- Sending what follows, when the front was delivered completely.
then_next :
    (chat_id : I64) (posted middle : Posted) (front back : Text) (sent : Sent)
    → Delivered chat_id posted front (middle, none)
    → Delivered chat_id middle back sent
    → Delivered chat_id posted (front ++ back) sent
then_next chat_id posted middle front back sent (ps, u, es, fs, inr bad) second = absurd cc
then_next chat_id posted middle front back sent (ps, u, es, fs, inl (_, e)) (qs, v, hs, gs, c) =
    let request = piece_request chat_id in
    let accepted_both : accepted sent.0 ≡ accepted posted ++ map request (ps ++ qs) =
      rw (hs, es, map-append request ps qs, append_assoc (accepted posted)) refl in
    let front_text : concat (map piece_text ps) ≡ front =
      sym (append-nil (concat (map piece_text ps)))
      ∙ ap (λ t. concat (map piece_text ps) ++ t) (sym e)
      ∙ fs in
    let text_both : concat (map piece_text (ps ++ qs)) ++ v ≡ front ++ back =
      rw
        (
          map-append piece_text ps qs,
          concat-append (map piece_text ps) (map piece_text qs),
          append_assoc (concat (map piece_text ps)),
          gs,
          front_text,
        )
        refl in
    (ps ++ qs, v, accepted_both, text_both, c)

-- What follows is not sent behind an error.
stopped :
    (chat_id : I64) (posted middle : Posted) (front back : Text) (error : TelegramError)
    → Delivered chat_id posted front (middle, some error)
    → Delivered chat_id posted (front ++ back) (middle, some error)
stopped chat_id posted middle front back error (ps, u, es, fs, c) = (
  ps,
  u ++ back,
  es,
  sym (append_assoc (concat (map piece_text ps)) u back) ∙ ap (λ t. t ++ back) fs,
  inr refl,
)

pub try_next-Delivered :
    (chat_id : I64) (posted : Posted) (front back : Text) (sent : Sent) (next : Posted → Sent)
    → Delivered chat_id posted front sent
    → ((middle : Posted) → Delivered chat_id middle back (next middle))
    → Delivered chat_id posted (front ++ back) (try_next sent next)
unfolding try_next
try_next-Delivered chat_id posted front back (middle, none) next first second =
    then_next chat_id posted middle front back (next middle) first (second middle)
try_next-Delivered chat_id posted front back (middle, some error) next first second =
    stopped chat_id posted middle front back error first

-- The same for what can panic, and does not.
abbrev pub DeliveredSome : I64 → Posted → Text → Option Sent → Type 0
DeliveredSome chat_id posted body result =
    (sent : Sent) × (result ≡ some sent) × Delivered chat_id posted body sent

pub try_next_part-Delivered :
    (chat_id : I64) (posted : Posted) (front back : Text) (sent : Sent)
    (next : Posted → Option Sent)
    → Delivered chat_id posted front sent
    → ((middle : Posted) → DeliveredSome chat_id middle back (next middle))
    → DeliveredSome chat_id posted (front ++ back) (try_next_part (some sent) next)
unfolding try_next_part
try_next_part-Delivered chat_id posted front back (middle, none) next first second =
    let (sent, e, h) = second middle in
    (sent, e, then_next chat_id posted middle front back sent first h)
try_next_part-Delivered chat_id posted front back (middle, some error) next first second =
    ((middle, some error), refl, stopped chat_id posted middle front back error first)
