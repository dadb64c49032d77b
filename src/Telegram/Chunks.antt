-- ===== src/Telegram/Chunks.antt =====
-- crates/tellm-telegram/src/lib.rs, `chunk_text`: splitting a message into chunks.
pub mod Cover
pub mod Breaks
mod Golden
use tellm.Base.{
  ℕ, zero, suc, ◌+◌, Option, none, some, List, [], ◌∷◌, Text, length, take, drop, ltb, leb, ◌==◌,
  if◌then◌else◌,
}

-- `.rev().find(|&idx| chars[idx] == '\n')`, from the start of the window.
pub last_newline : Text → Option ℕ
last_newline [] = none
last_newline (c ∷ s) = elim (last_newline s) [
  | some i ↦ some (suc i)
  | none ↦ if c == b'\n' then some zero else none
]

-- The end of a window of `chunk_size` characters: behind its last newline, unless that is missing
-- or the window's first character.
pub split_end : Option ℕ → ℕ → ℕ
split_end (some (suc i)) chunk_size = suc (suc i)
split_end (some zero) chunk_size = chunk_size
split_end none chunk_size = chunk_size

-- `end - start`, for the text from `start` on.
pub chunk_len : ℕ → Text → ℕ
unfolding last_newline split_end
chunk_len chunk_size text =
    let n = length text in
    if ltb chunk_size n then split_end (last_newline (take chunk_size text)) chunk_size else n

pub push_chunk : Text → Option (List Text) → Option (List Text)
push_chunk chunk none = none
push_chunk chunk (some chunks) = some (chunk ∷ chunks)

-- The loop of `chunk_text`, on fuel; `none` is fuel that ran out.
pub chunk_loop : ℕ → ℕ → Text → Option (List Text)
unfolding chunk_len push_chunk
chunk_loop fuel chunk_size [] = some []
chunk_loop zero chunk_size (c ∷ s) = none
chunk_loop (suc fuel) chunk_size (c ∷ s) =
    let n = chunk_len chunk_size (c ∷ s) in
    push_chunk (take n (c ∷ s)) (chunk_loop fuel chunk_size (drop n (c ∷ s)))

-- `none` is the panic of the assertion. Each round takes a character at least.
unfoldable pub chunk_text : Text → ℕ → Option (List Text)
unfolding chunk_loop
chunk_text text zero = none
chunk_text text (suc n) =
    if leb (length text) (suc n) then some (text ∷ []) else chunk_loop (length text) (suc n) text
