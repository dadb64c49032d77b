-- ===== src/Telegram/Strings.antt =====
-- crates/tellm-telegram/src/lib.rs, `escape_html`, and the searches in a text that it uses of `str`.
pub mod Escaping
use tellm.Base.{
  ℕ, zero, suc, ◌+◌, Bool, true, false, not, ◌||◌, ◌&&◌, Option, none, some, List, [], ◌∷◌, ◌++◌,
  map, Text, codes, length, ltb, leb, ◌==◌, if◌then◌else◌, is_whitespace, trim,
}

pub escape_char : ℕ → Text
escape_char ch =
    if ch == b'&'
    then codes "&amp;"
    else if ch == b'<'
    then codes "&lt;"
    else if ch == b'>'
    then codes "&gt;"
    else if ch == b'"'
    then codes "&quot;"
    else if ch == b'\''
    then codes "&#x27;"
    else ch ∷ []

unfoldable pub escape_html : Text → Text
unfolding escape_char
escape_html [] = []
escape_html (ch ∷ s) = escape_char ch ++ escape_html s

-- `starts_with`, with what is behind the prefix.
unfoldable pub strip : Text → Text → Option Text
strip [] s = some s
strip (p ∷ ps) [] = none
strip (p ∷ ps) (c ∷ s) = let rest = strip ps s in if p == c then rest else none

before : ℕ → Option (Text × Text) → Option (Text × Text)
before c none = none
before c (some (s, t)) = some (c ∷ s, t)

found : Text → Option Text → Option (Text × Text) → Option (Text × Text)
unfolding before
found s (some rest) later = some ([], rest)
found [] none later = none
found (c ∷ s) none later = before c later

-- `find`: what is in front of the first match of a pattern, and what is behind it.
unfoldable pub find : Text → Text → Option (Text × Text)
unfolding strip found
find pattern [] = found [] (strip pattern []) none
find pattern (c ∷ s) = found (c ∷ s) (strip pattern (c ∷ s)) (find pattern s)

-- `text.replace(from, to)` for a pattern that is not empty, on fuel above the text's length.
unfoldable pub replace_all : ℕ → Text → Text → Text → Text
unfolding find
replace_all zero pattern to s = s
replace_all (suc fuel) pattern to s = elim (find pattern s) [
  | none ↦ s
  | some (front, rest) ↦ front ++ to ++ replace_all fuel pattern to rest
]
