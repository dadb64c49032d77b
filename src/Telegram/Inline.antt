-- ===== src/Telegram/Inline.antt =====
-- crates/tellm-telegram/src/lib.rs, `replace_links` and `replace_delimited`: the markup in a line.
use tellm.Base.{
  ℕ, zero, suc, Bool, true, false, not, ◌||◌, ◌&&◌, Option, none, some, [], ◌∷◌, ◌++◌, Text, codes,
  length, if◌then◌else◌, is_whitespace, text_eq,
}
use tellm.Telegram.Strings.{strip, find}

is_some_text : Option Text → Bool
is_some_text none = false
is_some_text (some s) = true

any_whitespace : Text → Bool
unfolding is_whitespace
any_whitespace [] = false
any_whitespace (c ∷ s) = is_whitespace c || any_whitespace s

-- A label and an address that make a link.
is_link : Text → Text → Bool
unfolding strip is_some_text any_whitespace
is_link label url =
    not (text_eq label [])
    && not (text_eq url [])
    && (is_some_text (strip (codes "http://") url) || is_some_text (strip (codes "https://") url))
    && not (any_whitespace url)

-- The label, the address and the rest, for the text behind an opening bracket.
link_target : Text → Option (Text × Text) → Option (Text × Text × Text)
link_target label none = none
link_target label (some (url, rest)) = some (label, url, rest)

link_parts : Text → Option (Text × Text × Text)
unfolding find strip link_target
link_parts s = elim (find (codes "]") s) [
  | none ↦ none
  | some (label, behind) ↦ elim (strip (codes "(") behind) [
    | none ↦ none
    | some address ↦ link_target label (find (codes ")") address)
  ]
]

-- On fuel above the text's length.
replace_links : ℕ → Text → Text
unfolding find link_parts is_link
replace_links zero input = input
replace_links (suc fuel) input = elim (find (codes "[") input) [
  | none ↦ input
  | some (front, after_open) ↦
      let skipped = front ++ codes "[" ++ replace_links fuel after_open in
      elim (link_parts after_open) [
        | none ↦ skipped
        | some (label, url, rest) ↦
            let linked = replace_links fuel rest in
            if is_link label url
            then front
              ++ codes "<a href=\""
              ++ url
              ++ codes "\">"
              ++ label
              ++ codes "</a>"
              ++ linked
            else skipped
      ]
]

-- The content in front of the closing delimiter, which is on the same line and not empty.
delimited : Option (Text × Text) → Option (Text × Text)
unfolding find
delimited none = none
delimited (some ([], rest)) = none
delimited (some (c ∷ content, rest)) = elim (find (codes "\n") (c ∷ content)) [
  | none ↦ some (c ∷ content, rest)
  | some line ↦ none
]

-- On fuel above the text's length.
replace_delimited : ℕ → Text → Text → Text → Text
unfolding find delimited
replace_delimited zero input delimiter tag = input
replace_delimited (suc fuel) input delimiter tag = elim (find delimiter input) [
  | none ↦ input
  | some (front, behind) ↦ elim (delimited (find delimiter behind)) [
    | none ↦ front ++ delimiter ++ replace_delimited fuel behind delimiter tag
    | some (content, rest) ↦
        front
        ++ codes "<"
        ++ tag
        ++ codes ">"
        ++ content
        ++ codes "</"
        ++ tag
        ++ codes ">"
        ++ replace_delimited fuel rest delimiter tag
  ]
]

-- The three kinds of markup within a line.
unfoldable pub mark_delimited : Text → Text → Text → Text
unfolding replace_delimited
mark_delimited delimiter tag s = replace_delimited (suc (length s)) s delimiter tag

unfoldable pub mark_links : Text → Text
unfolding replace_links
mark_links s = replace_links (suc (length s)) s
