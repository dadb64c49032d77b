-- ===== src/Rooms/History.antt =====
-- The history of a room is a list of whole turns, of which the newest that fit the limits are kept.
use tellm.Base.{
  ℕ, zero, suc, ◌+◌, ◌%◌, ◌^◌, ◌≤◌, ◌<◌, ◌≡◌, ◌⊎◌, refl, ap, ◌∙◌, inl, inr, min, true, false, some,
  List, [], ◌∷◌, ◌++◌, length, drop, map, concat, concat-append, append-nil, subst, ◌-◌,
  drop-append, length-append, arith, leb, Bool-cases, if◌then◌else◌, saturating_add, u64_max,
}
use mathlib.Core.List.{map-append}
use tellm.Core.{Value}
use tellm.Config.{WireFormat}
use tellm.Rooms.{
  RoomState, chat, message, max_history_turns, max_history_bytes, turn_of, history_bytes,
  over_limit, drain, prune, with_history, push_turn, append_turn, speaks, switch_format, for_mode,
}

-- The turns that a room's two history fields stand for.
pub record Holds (turns : List (List Value)) (room : RoomState) : Type 0 where
  pub items : room.history ≡ concat turns
  pub sizes : room.history_turns ≡ map turn_of turns

-- The size of all turns, added up without an upper bound.
abbrev pub total_bytes : List (List Value) → ℕ
total_bytes [] = 0
total_bytes (t ∷ ts) = (turn_of t).approx_bytes + total_bytes ts

abbrev pub Fits : List (List Value) → Type 0
Fits turns = (length turns ≤ max_history_turns) × (total_bytes turns ≤ max_history_bytes)

history_bytes_lem :
    (total : ℕ) (ts : List (List Value))
    → total ≤ u64_max
    → history_bytes total (map turn_of ts) ≡ min (total + total_bytes ts) u64_max
unfolding history_bytes
history_bytes_lem total [] h = omega arith
history_bytes_lem total (t ∷ ts) h =
    ground (arith, history_bytes_lem (saturating_add total (turn_of t).approx_bytes) ts)

length-sizes : (ts : List (List Value)) → length (map turn_of ts) ≡ length ts
length-sizes [] = refl
length-sizes (t ∷ ts) = ap suc (length-sizes ts)

over_limit-false : (ts : List (List Value)) → over_limit (map turn_of ts) ≡ false → Fits ts
unfolding over_limit
over_limit-false ts h = ground (arith, history_bytes_lem 0 ts, length-sizes ts)

over_limit-true : (ts : List (List Value)) → over_limit (map turn_of ts) ≡ true → ¬ Fits ts
unfolding over_limit
over_limit-true ts h f = ground (arith, history_bytes_lem 0 ts, length-sizes ts)

drain-front : (t rest : List Value) → drain (length t) (t ++ rest) ≡ some rest
unfolding drain
drain-front t rest =
    let fits : leb (length t) (length (t ++ rest)) ≡ true = ground (arith, length-append t rest) in
    rw (fits, drop-append)

-- How many turns the loop removes.
pruned : List (List Value) → ℕ
pruned [] = 0
pruned (t ∷ ts) = let more = pruned ts in if over_limit (map turn_of (t ∷ ts)) then suc more else 0

prune_lem :
    (ts : List (List Value))
    → prune (map turn_of ts) (concat ts)
      ≡ some (map turn_of (drop (pruned ts) ts), concat (drop (pruned ts) ts))
unfolding prune pruned turn_of
prune_lem [] = refl
prune_lem (t ∷ ts) = elim (Bool-cases (over_limit (map turn_of (t ∷ ts)))) [
  | inl over ↦ rw over (rw drain-front (prune_lem ts))
  | inr fits ↦ rw fits
]

pruned-Fits : (ts : List (List Value)) → Fits (drop (pruned ts) ts)
unfolding pruned
pruned-Fits [] = omega arith
pruned-Fits (t ∷ ts) = elim (Bool-cases (over_limit (map turn_of (t ∷ ts)))) [
  | inl over ↦ rw over (pruned-Fits ts)
  | inr fits ↦ rw fits (over_limit-false (t ∷ ts) fits)
]

pruned-least : (ts : List (List Value)) (j : ℕ) → j < pruned ts → ¬ Fits (drop j ts)
unfolding pruned
pruned-least [] j h f = absurd (omega arith)
pruned-least (t ∷ ts) zero h f = elim (Bool-cases (over_limit (map turn_of (t ∷ ts)))) [
  | inl over ↦ over_limit-true (t ∷ ts) over f
  | inr fits ↦ ground (arith, fits)
]
pruned-least (t ∷ ts) (suc j) h f = elim (Bool-cases (over_limit (map turn_of (t ∷ ts)))) [
  | inl over ↦ pruned-least ts j (ground (arith, over)) f
  | inr fits ↦ ground (arith, fits)
]

prune_pushed :
    (turns : List (List Value)) (items : List Value)
    → prune (map turn_of turns ++ turn_of items ∷ []) (concat turns ++ items)
      ≡ some (
        map turn_of (drop (pruned (turns ++ items ∷ [])) (turns ++ items ∷ [])),
        concat (drop (pruned (turns ++ items ∷ [])) (turns ++ items ∷ [])),
      )
prune_pushed turns items =
    let sizes : map turn_of (turns ++ items ∷ []) ≡ map turn_of turns ++ turn_of items ∷ [] =
      map-append turn_of turns (items ∷ []) in
    let flat : concat (turns ++ items ∷ []) ≡ concat turns ++ items =
      concat-append turns (items ∷ []) ∙ ap (λ x. concat turns ++ x) (append-nil items) in
    rw (← sizes, ← flat) (prune_lem (turns ++ items ∷ []))

pruned-tight :
    (all : List (List Value)) (k : ℕ) → k ≡ pruned all → (k ≡ 0) ⊎ (¬ Fits (drop (k - 1) all))
pruned-tight all zero h = inl refl
pruned-tight all (suc k) h =
    inr (subst (λ j. ¬ Fits (drop j all)) (omega arith) (pruned-least all k (omega (arith, h))))

-- Appending a turn to a room that holds whole turns never panics. The room then holds the newest
-- turns that fit the limits: of all turns with the new one at the end, the first `k` are gone, what
-- is left has at most 32 turns and 4 MiB, and one removed turn less would not do. Nothing else of
-- the room changes.
pub push_turn-Holds :
    (turns : List (List Value)) (items : List Value) (room : RoomState)
    → Holds turns room
    → (k : ℕ) × (after : RoomState) × (push_turn items room ≡ some after)
      × Holds (drop k (turns ++ items ∷ [])) after
      × Fits (drop k (turns ++ items ∷ []))
      × ((k ≡ 0) ⊎ (¬ Fits (drop (k - 1) (turns ++ items ∷ []))))
      × (after ≡ record room { history = after.history; history_turns = after.history_turns })
unfolding push_turn
push_turn-Holds turns items room h =
    let all : List (List Value) = turns ++ items ∷ [] in
    let k : ℕ = pruned all in
    (
      k,
      record room { history = concat (drop k all); history_turns = map turn_of (drop k all) },
      rw (h.items, h.sizes, prune_pushed turns items) (unfold with_history in refl),
      record { items = refl; sizes = refl },
      pruned-Fits all,
      pruned-tight all k refl,
      refl,
    )

-- The turns that a new one is appended to: none after a change of the wire format, and none in
-- message mode.
abbrev pub continued : WireFormat → RoomState → List (List Value) → List (List Value)
continued wire_format room turns =
    if speaks room.wire_format wire_format
    then elim room.settings.mode [ chat ↦ turns | message ↦ [] ]
    else []

abbrev start_of : WireFormat → RoomState → RoomState
start_of wire_format room =
    for_mode (switch_format wire_format room).settings.mode (switch_format wire_format room)

start-Holds :
    (turns : List (List Value)) (wire_format : WireFormat) (room : RoomState)
    → Holds turns room
    → Holds (continued wire_format room turns) (start_of wire_format room)
unfolding switch_format for_mode
start-Holds turns wire_format room h = ground arith

start_rest :
    (wire_format : WireFormat) (room : RoomState)
    → ((start_of wire_format room).settings ≡ room.settings)
      × ((start_of wire_format room).wire_format ≡ some wire_format)
      × ((start_of wire_format room).generation ≡ (
          if speaks room.wire_format wire_format
          then room.generation
          else (room.generation + 1) % 2 ^ 64))
unfolding switch_format for_mode speaks
start_rest wire_format room = ground arith

-- Appending a provider's turn to a room that holds whole turns never panics and leaves the room
-- speaking that wire format, with its settings as they were. The room then holds the newest turns
-- that fit the limits, and as many of them as fit: of the turns before it with the new one behind
-- them, if the wire format is the same and the mode is chat, and of the new one alone otherwise, the
-- first `k` are gone, the rest fits, and with one removed turn less it would not. The generation is
-- counted up exactly when the wire format has changed.
pub append_turn-Holds :
    (turns : List (List Value)) (items : List Value) (wire_format : WireFormat) (room : RoomState)
    → Holds turns room
    → (k : ℕ) × (after : RoomState) × (append_turn wire_format items room ≡ some after)
      × Holds (drop k (continued wire_format room turns ++ items ∷ [])) after
      × Fits (drop k (continued wire_format room turns ++ items ∷ []))
      × ((k ≡ 0) ⊎ (¬ Fits (drop (k - 1) (continued wire_format room turns ++ items ∷ []))))
      × (after.settings ≡ room.settings)
      × (after.wire_format ≡ some wire_format)
      × (after.generation ≡ (
          if speaks room.wire_format wire_format
          then room.generation
          else (room.generation + 1) % 2 ^ 64))
unfolding append_turn
append_turn-Holds turns items wire_format room h =
    let (k, after, pushed, holds, fits, least, same) =
      push_turn-Holds (continued wire_format room turns) items (start_of wire_format room)
        (start-Holds turns wire_format room h) in
    let (settings, format, generation) = start_rest wire_format room in
    (
      k,
      after,
      pushed,
      holds,
      fits,
      least,
      ap (λ (r : RoomState). r.settings) same ∙ settings,
      ap (λ (r : RoomState). r.wire_format) same ∙ format,
      ap (λ (r : RoomState). r.generation) same ∙ generation,
    )
