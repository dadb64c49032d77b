-- ===== src/Telegram/Markdown.antt =====
-- crates/tellm-telegram/src/lib.rs, `markdown_to_html`: markdown as Telegram's HTML.
mod Golden
use tellm.Telegram.Inline.{mark_links, mark_delimited}
use tellm.Base.{
  ℕ, zero, suc, Option, none, some, List, [], ◌∷◌, ◌++◌, map, Text, codes, length, ◌==◌,
  if◌then◌else◌, is_whitespace, trim,
}
use tellm.Base.Decimal.{decimal}
use mathlib.Core.List.{reverse}
use tellm.Telegram.Strings.{escape_html, find, replace_all}

-- The content of a fence, behind the newline that ends its first line.
pub fenced_content_start : Text → Option Text
fenced_content_start [] = none
fenced_content_start (c ∷ s) =
    let more = fenced_content_start s in
    if c == b'\n' then some s else if c == b'`' then none else more

trim_newlines_start : Text → Text
trim_newlines_start [] = []
trim_newlines_start (c ∷ s) = let rest = trim_newlines_start s in if c == b'\n' then rest else c ∷ s

-- `trim_matches('\n')`
trim_newlines : Text → Text
unfolding trim_newlines_start
trim_newlines s = reverse (trim_newlines_start (reverse (trim_newlines_start s)))

placeholder : ℕ → Text
placeholder idx = codes "@@TG_CODEBLOCK_" ++ decimal idx ++ codes "@@"

fence : Text
fence = codes "```"

-- The content of a fenced block, and what is behind its closing fence.
fenced_block : Option Text → Option (Text × Text)
unfolding find fence
fenced_block none = none
fenced_block (some content) = find fence content

prepend : Text → Text × List Text → Text × List Text
prepend front (output, blocks) = (front ++ output, blocks)

add_block : Text → Text × List Text → Text × List Text
add_block block (output, blocks) = (output, block ∷ blocks)

-- The loop of `capture_fenced_blocks` with `idx` blocks so far, on fuel above the text's length.
capture_from : ℕ → ℕ → Text → Text × List Text
unfolding find fenced_content_start fenced_block trim_newlines placeholder prepend add_block fence
    escape_html
capture_from zero idx s = (s, [])
capture_from (suc fuel) idx s = elim (find fence s) [
  | none ↦ (s, [])
  | some (front, after_open) ↦ elim (fenced_block (fenced_content_start after_open)) [
    | none ↦ prepend (front ++ codes "`") (capture_from fuel idx (codes "``" ++ after_open))
    | some (content, rest) ↦ prepend (front ++ placeholder idx) (
        add_block
          (codes "<pre><code>" ++ escape_html (trim_newlines content) ++ codes "</code></pre>")
          (capture_from fuel (suc idx) rest))
  ]
]

pub capture_fenced_blocks : Text → Text × List Text
unfolding capture_from
capture_fenced_blocks text = capture_from (suc (length text)) 0 text

-- At most `n` whitespace characters in front are skipped; `none` is the end of the line before
-- either.
skip_indent : ℕ → Text → Option Text
unfolding is_whitespace
skip_indent zero s = some s
skip_indent (suc n) [] = none
skip_indent (suc n) (c ∷ s) =
    let rest = skip_indent n s in if is_whitespace c then rest else some (c ∷ s)

-- Up to `n` hashes: how many there are, and what is behind them.
count_hashes : ℕ → Text → ℕ × Text
count_hashes zero s = (0, s)
count_hashes (suc n) [] = (0, [])
count_hashes (suc n) (c ∷ s) =
    let (k, rest) = count_hashes n s in if c == b'#' then (suc k, rest) else (0, c ∷ s)

-- Behind all whitespace, or the last whitespace character when nothing else is there.
skip_whitespace : ℕ → Text → Text
unfolding is_whitespace
skip_whitespace last [] = last ∷ []
skip_whitespace last (c ∷ s) =
    let rest = skip_whitespace c s in if is_whitespace c then rest else c ∷ s

heading_text : ℕ × Text → Option Text
unfolding skip_whitespace is_whitespace
heading_text (zero, s) = none
heading_text (suc k, []) = none
heading_text (suc k, c ∷ s) =
    let rest = skip_whitespace c s in if is_whitespace c then some rest else none

pub markdown_heading : Text → Option Text
unfolding skip_indent count_hashes heading_text
markdown_heading line = elim (skip_indent 3 line) [
  | none ↦ none
  | some s ↦ heading_text (count_hashes 6 s)
]

-- `split('\n')`
split_lines : Text → List Text
split_lines [] = [] ∷ []
split_lines (c ∷ s) = elim (split_lines s) [
  | [] ↦ (c ∷ []) ∷ []
  | line ∷ lines ↦ if c == b'\n' then [] ∷ line ∷ lines else (c ∷ line) ∷ lines
]

-- `join("\n")`
join_lines : List Text → Text
join_lines [] = []
join_lines (line ∷ []) = line
join_lines (line ∷ next ∷ lines) = line ++ b'\n' ∷ join_lines (next ∷ lines)

line_to_html : Text → Text
unfolding markdown_heading trim
line_to_html line = elim (markdown_heading line) [
  | none ↦ line
  | some heading ↦ codes "<b>" ++ trim heading ++ codes "</b>"
]

restore_blocks : ℕ → List Text → Text → Text
unfolding replace_all placeholder
restore_blocks idx [] s = s
restore_blocks idx (block ∷ blocks) s =
    restore_blocks (suc idx) blocks (replace_all (suc (length s)) (placeholder idx) block s)

unfoldable pub markdown_to_html : Text → Text
unfolding capture_fenced_blocks split_lines join_lines line_to_html mark_links mark_delimited
    restore_blocks escape_html
markdown_to_html [] = []
markdown_to_html (c ∷ s) =
    let (without_fenced, fenced_blocks) = capture_fenced_blocks (c ∷ s) in
    let headed = join_lines (map line_to_html (split_lines (escape_html without_fenced))) in
    let linked = mark_links headed in
    let bold =
      mark_delimited (codes "__") (codes "b") (mark_delimited (codes "**") (codes "b") linked) in
    restore_blocks 0 fenced_blocks (mark_delimited (codes "`") (codes "code") bold)
