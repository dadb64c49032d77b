-- ===== src/Telegram/Chunks/Cover.antt =====
-- What the chunks of a message are made of.
use tellm.Base.{
  ℕ, zero, suc, ◌≤◌, ◌<◌, ◌≡◌, refl, ap, ◌∙◌, inl, inr, Option, none, some, List, [], ◌∷◌, ◌++◌,
  arith, Text, length, take, drop, concat, All, length-take, length-drop, append-nil,
  take-append-drop, Bool-cases, leb, Option-cases,
}
use tellm.Telegram.Chunks.{last_newline, split_end, chunk_len, push_chunk, chunk_loop, chunk_text}

abbrev pub IsChunk : ℕ → Text → Type 0
IsChunk chunk_size chunk = (0 < length chunk) × (length chunk ≤ chunk_size)

last_newline-bound : (s : Text) (i : ℕ) → last_newline s ≡ some i → i < length s
unfolding last_newline
last_newline-bound [] i h = cc
last_newline-bound (c ∷ s) i h = elim (Option-cases (last_newline s)) [
  | inl e ↦ ground (arith, h, e)
  | inr (j, e) ↦ ground (arith, h, e, last_newline-bound s j e)
]

split_end-bounds :
    (o : Option ℕ) (n : ℕ)
    → ((i : ℕ) → o ≡ some i → i < suc n)
    → (0 < split_end o (suc n)) × (split_end o (suc n) ≤ suc n)
unfolding split_end
split_end-bounds none n h = omega arith
split_end-bounds (some zero) n h = omega arith
split_end-bounds (some (suc i)) n h = let b = h (suc i) refl in omega (arith, b)

pub chunk_len-bounds :
    (n : ℕ) (c : ℕ) (s : Text)
    → (0 < chunk_len (suc n) (c ∷ s))
      × (chunk_len (suc n) (c ∷ s) ≤ suc n)
      × (chunk_len (suc n) (c ∷ s) ≤ length (c ∷ s))
unfolding chunk_len
chunk_len-bounds n c s =
    let window = take (suc n) (c ∷ s) in
    let inside = length-take (suc n) (c ∷ s) in
    let bounds =
      split_end-bounds (last_newline window) n
        (λ i e. let b = last_newline-bound window i e in omega (arith, b, inside)) in
    ground (arith, bounds)

-- The chunks of a text: they make up the text, and each has between 1 and `chunk_size` characters.
abbrev pub Chunking : Option (List Text) → ℕ → Text → Type 0
Chunking result chunk_size text =
    (chunks : List Text) × (result ≡ some chunks)
    × (concat chunks ≡ text)
    × All (IsChunk chunk_size) chunks

push_chunk-Chunking :
    (n k : ℕ) (s : Text) (rest : Option (List Text))
    → IsChunk n (take k s)
    → Chunking rest n (drop k s)
    → Chunking (push_chunk (take k s) rest) n s
unfolding push_chunk
push_chunk-Chunking n k s rest first (chunks, e, whole, all) = (
  take k s ∷ chunks,
  rw e refl,
  ap (λ t. take k s ++ t) whole ∙ take-append-drop k s,
  (first, all),
)

chunk_loop-Chunking :
    (fuel n : ℕ) (s : Text) → length s ≤ fuel → Chunking (chunk_loop fuel (suc n) s) (suc n) s
unfolding chunk_loop
chunk_loop-Chunking fuel n [] h = ([], refl, refl, tt)
chunk_loop-Chunking zero n (c ∷ s) h = absurd (omega (arith, h))
chunk_loop-Chunking (suc fuel) n (c ∷ s) h =
    let k = chunk_len (suc n) (c ∷ s) in
    let bounds = chunk_len-bounds n c s in
    let taken = length-take k (c ∷ s) in
    let left = length-drop k (c ∷ s) in
    push_chunk-Chunking (suc n) k (c ∷ s) (chunk_loop fuel (suc n) (drop k (c ∷ s)))
      (omega (arith, bounds, taken), omega (arith, bounds, taken))
      (chunk_loop-Chunking fuel n (drop k (c ∷ s)) (omega (arith, left, h, bounds)))

-- Splitting a text that is not empty by a size above 0 returns chunks that make up the text in
-- order, each of between 1 and that many characters.
pub chunk_text-chunks :
    (text : Text) (chunk_size : ℕ)
    → 0 < chunk_size
    → 0 < length text
    → (chunks : List Text) × (chunk_text text chunk_size ≡ some chunks)
      × (concat chunks ≡ text)
      × All (IsChunk chunk_size) chunks
unfolding chunk_text
chunk_text-chunks text zero positive nonempty = absurd (omega (arith, positive))
chunk_text-chunks text (suc n) positive nonempty = elim (Bool-cases (leb (length text) (suc n))) [
  | inl short ↦ rw short (text ∷ [], refl, append-nil text, ((nonempty, ground (arith, short)), tt))
  | inr long ↦ rw long (chunk_loop-Chunking (length text) n text (omega arith))
]
