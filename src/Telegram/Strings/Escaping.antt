-- ===== src/Telegram/Strings/Escaping.antt =====
-- What escaping keeps of a text.
use tellm.Base.{
  ℕ, zero, suc, ◌≤◌, ◌≡◌, ◌≢◌, refl, length, length-append, [], ◌∷◌, ◌++◌, arith, Text, All,
  All-append, ◌==◌, if◌then◌else◌, Option, none, some, ◌∙◌, codes,
}
use tellm.Base.IdMap.{map_option}
use tellm.Telegram.Strings.{escape_char, escape_html, strip}

-- Neither an angle bracket nor a quote.
abbrev pub IsInert : ℕ → Type 0
IsInert c = (c ≢ b'<') × (c ≢ b'>') × (c ≢ b'"') × (c ≢ b'\'')

escape_char-IsInert : (c : ℕ) → All IsInert (escape_char c)
unfolding escape_char
escape_char-IsInert c = ground arith

-- An escaped text contains no angle bracket and no quote.
pub escape_html-IsInert : (s : Text) → All IsInert (escape_html s)
unfolding escape_html
escape_html-IsInert [] = tt
escape_html-IsInert (c ∷ s) =
    All-append IsInert (escape_char c) (escape_html s) (escape_char-IsInert c)
      (escape_html-IsInert s)

entity : Text → Option (ℕ × Text)
unfolding strip
entity s = elim (strip (codes "amp;") s) [
  | some rest ↦ some (b'&', rest)
  | none ↦ elim (strip (codes "lt;") s) [
    | some rest ↦ some (b'<', rest)
    | none ↦ elim (strip (codes "gt;") s) [
      | some rest ↦ some (b'>', rest)
      | none ↦ elim (strip (codes "quot;") s) [
        | some rest ↦ some (b'"', rest)
        | none ↦ elim (strip (codes "#x27;") s) [ some rest ↦ some (b'\'', rest) | none ↦ none ]
      ]
    ]
  ]
]

-- The first character of an escaped text, and the rest.
read_char : Text → Option (ℕ × Text)
unfolding entity
read_char [] = none
read_char (c ∷ s) = if c == b'&' then entity s else some (c, s)

read_char-escape_char : (c : ℕ) (s : Text) → read_char (escape_char c ++ s) ≡ some (c, s)
unfolding read_char escape_char
read_char-escape_char c s = ground arith

-- What a reader of HTML shows for a text, on fuel: the references stand for their characters, and
-- an ampersand that begins none of them is refused.
shown : Option (ℕ × Text) → (Text → Option Text) → Option Text
shown none read_rest = none
shown (some (c, rest)) read_rest = map_option (λ (s : Text). c ∷ s) (read_rest rest)

html_text_from : ℕ → Text → Option Text
unfolding shown read_char
html_text_from fuel [] = some []
html_text_from zero (c ∷ s) = none
html_text_from (suc fuel) (c ∷ s) = shown (read_char (c ∷ s)) (html_text_from fuel)

-- Each round reads a character at least, so the length of the text is enough fuel.
unfoldable pub html_text : Text → Option Text
unfolding html_text_from
html_text s = html_text_from (length s) s

length-escape_char : (c : ℕ) → 1 ≤ length (escape_char c)
unfolding escape_char
length-escape_char c = ground arith

length-escape_html : (s : Text) → length s ≤ length (escape_html s)
unfolding escape_html
length-escape_html [] = omega arith
length-escape_html (c ∷ s) = omega (
  arith,
  length-append (escape_char c) (escape_html s),
  length-escape_char c,
  length-escape_html s,
)

html_text_round :
    (fuel : ℕ) (c : ℕ) (s t : Text)
    → read_char t ≡ some (c, s)
    → html_text_from (suc fuel) t ≡ map_option (λ (u : Text). c ∷ u) (html_text_from fuel s)
unfolding html_text_from
html_text_round fuel c s [] h = absurd (unfold read_char in cc)
html_text_round fuel c s (d ∷ t) h = rw h (unfold shown in refl)

html_text_from-escape_html :
    (fuel : ℕ) (s : Text) → length s ≤ fuel → html_text_from fuel (escape_html s) ≡ some s
unfolding escape_html
html_text_from-escape_html fuel [] h = unfold html_text_from in refl
html_text_from-escape_html zero (c ∷ s) h = absurd (omega arith)
html_text_from-escape_html (suc fuel) (c ∷ s) h =
    html_text_round fuel c (escape_html s) (escape_html (c ∷ s))
      (read_char-escape_char c (escape_html s))
    ∙ (rw (html_text_from-escape_html fuel s (omega arith)) refl)

-- An escaped text has no angle bracket and no quote, and each ampersand in it begins one of the five
-- references, so that a reader of HTML, who shows these as their characters, shows the text itself.
pub html_text-escape_html :
    (s : Text) → All IsInert (escape_html s) × (html_text (escape_html s) ≡ some s)
unfolding html_text
html_text-escape_html s = (
  escape_html-IsInert s,
  html_text_from-escape_html (length (escape_html s)) s (length-escape_html s),
)
