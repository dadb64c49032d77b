-- ===== src/Telegram/Chunks/Breaks.antt =====
-- Where a message is broken.
use tellm.Base.{
  ℕ, zero, suc, ◌≤◌, ◌<◌, ◌≡◌, refl, ◌⊎◌, inl, inr, Option, none, some, List, [], ◌∷◌, arith, Text,
  length, take, drop, length-take, length-drop, Bool, true, false, Bool-cases, leb, ltb,
  Option-cases, ◌==◌, subst,
}
use tellm.Telegram.Chunks.Cover.{chunk_len-bounds}
use tellm.Telegram.Chunks.{last_newline, split_end, chunk_len, push_chunk, chunk_loop, chunk_text}

abbrev pub ends_line : Text → Bool
ends_line [] = false
ends_line (c ∷ []) = c == b'\n'
ends_line (c ∷ d ∷ s) = ends_line (d ∷ s)

-- A full chunk, or whole lines.
abbrev pub IsBroken : ℕ → Text → Type 0
IsBroken chunk_size chunk = (length chunk ≡ chunk_size) ⊎ (ends_line chunk ≡ true)

-- All chunks but the last one.
abbrev pub Breaks : ℕ → List Text → Type 0
Breaks chunk_size [] = Unit
Breaks chunk_size (chunk ∷ chunks) =
    elim chunks [ [] ↦ Unit | next ∷ later ↦ IsBroken chunk_size chunk ] × Breaks chunk_size chunks

ends_line-suc : (c : ℕ) (s : Text) → ends_line s ≡ true → ends_line (c ∷ s) ≡ true
ends_line-suc c [] h = absurd cc
ends_line-suc c (d ∷ s) h = h

-- The text up to the last newline of a window ends a line.
last_newline-ends_line :
    (n : ℕ) (s : Text) (i : ℕ)
    → last_newline (take n s) ≡ some i
    → ends_line (take (suc i) s) ≡ true
unfolding last_newline
last_newline-ends_line zero s i h = absurd cc
last_newline-ends_line (suc n) [] i h = absurd cc
last_newline-ends_line (suc n) (c ∷ s) i h = elim (Option-cases (last_newline (take n s))) [
  | inl e ↦ ground (arith, h, e)
  | inr (j, e) ↦
      let found : suc j ≡ i = ground (arith, h, e) in
      subst (λ k. ends_line (take (suc k) (c ∷ s)) ≡ true) found
        (ends_line-suc c (take (suc j) s) (last_newline-ends_line n s j e))
]

split_end-IsBroken :
    (n : ℕ) (s : Text) (o : Option ℕ)
    → suc n < length s
    → last_newline (take (suc n) s) ≡ o
    → IsBroken (suc n) (take (split_end o (suc n)) s)
unfolding split_end
split_end-IsBroken n s none long h =
    inl (let taken = length-take (suc n) s in omega (arith, taken, long))
split_end-IsBroken n s (some zero) long h =
    inl (let taken = length-take (suc n) s in omega (arith, taken, long))
split_end-IsBroken n s (some (suc i)) long h = inr (last_newline-ends_line (suc n) s (suc i) h)

chunk_len-IsBroken :
    (n : ℕ) (s : Text)
    → ltb (suc n) (length s) ≡ true
    → IsBroken (suc n) (take (chunk_len (suc n) s) s)
unfolding chunk_len
chunk_len-IsBroken n s long =
    rw long (split_end-IsBroken n s (last_newline (take (suc n) s)) (ground (arith, long)) refl)

abbrev Broken : ℕ → Option (List Text) → Type 0
Broken chunk_size result = (chunks : List Text) × (result ≡ some chunks) × Breaks chunk_size chunks

push-Broken :
    (n : ℕ) (chunk : Text) (rest : Option (List Text))
    → IsBroken n chunk
    → Broken n rest
    → Broken n (push_chunk chunk rest)
unfolding push_chunk
push-Broken n chunk rest broken ([], e, all) = (chunk ∷ [], rw e refl, (tt, tt))
push-Broken n chunk rest broken (next ∷ later, e, all) =
    (chunk ∷ next ∷ later, rw e refl, (broken, all))

drop_all : (n : ℕ) (s : Text) → length s ≤ n → drop n s ≡ []
drop_all zero [] h = refl
drop_all zero (c ∷ s) h = absurd (omega (arith, h))
drop_all (suc n) [] h = refl
drop_all (suc n) (c ∷ s) h = drop_all n s (omega (arith, h))

-- A last chunk needs no break.
push_last :
    (fuel n k : ℕ) (s : Text)
    → length s ≤ k
    → Broken n (push_chunk (take k s) (chunk_loop fuel n (drop k s)))
unfolding push_chunk
push_last fuel n k s h =
    let none_left : chunk_loop fuel n (drop k s) ≡ some [] =
      rw (drop_all k s h) (unfold chunk_loop in refl) in
    (take k s ∷ [], rw none_left refl, (tt, tt))

chunk_loop-Broken :
    (fuel n : ℕ) (s : Text) → length s ≤ fuel → Broken (suc n) (chunk_loop fuel (suc n) s)
unfolding chunk_loop
chunk_loop-Broken fuel n [] h = ([], refl, tt)
chunk_loop-Broken zero n (c ∷ s) h = absurd (omega (arith, h))
chunk_loop-Broken (suc fuel) n (c ∷ s) h =
    let k = chunk_len (suc n) (c ∷ s) in
    let bounds = chunk_len-bounds n c s in
    let left = length-drop k (c ∷ s) in
    elim (Bool-cases (ltb (suc n) (length (c ∷ s)))) [
      | inl long ↦
          push-Broken (suc n) (take k (c ∷ s)) (chunk_loop fuel (suc n) (drop k (c ∷ s)))
            (chunk_len-IsBroken n (c ∷ s) long)
            (chunk_loop-Broken fuel n (drop k (c ∷ s)) (omega (arith, left, h, bounds)))
      | inr short ↦ push_last fuel (suc n) k (c ∷ s) (unfold chunk_len in ground (arith, short))
    ]

-- Splitting a text by a size above 0 breaks it only behind a newline or where a chunk is full: each
-- chunk but the last ends with a newline or has exactly that many characters.
pub chunk_text-Breaks :
    (text : Text) (chunk_size : ℕ)
    → 0 < chunk_size
    → (chunks : List Text) × (chunk_text text chunk_size ≡ some chunks) × Breaks chunk_size chunks
unfolding chunk_text
chunk_text-Breaks text zero positive = absurd (omega (arith, positive))
chunk_text-Breaks text (suc n) positive = elim (Bool-cases (leb (length text) (suc n))) [
  | inl short ↦ rw short (text ∷ [], refl, (tt, tt))
  | inr long ↦ rw long (chunk_loop-Broken (length text) n text (omega arith))
]
