-- ===== src/Rooms/Generation.antt =====
-- The generation number: what a provider call in flight can still do to its room.
use tellm.Base.{
  ℕ, suc, ◌+◌, ◌-◌, ◌%◌, ◌^◌, ◌≤◌, ◌<◌, ◌≡◌, ◌≢◌, refl, ◌⊎◌, inl, inr, Bool, true, false, Option,
  none, some, List, [], ◌∷◌, length, arith, ◌==◌, Bool-cases, Option-cases, wrapping_add,
}
use tellm.Core.{Value}
use tellm.Config.{WireFormat}
use tellm.Rooms.{
  RoomState, RoomSettings, FailedTurnRollback, begin_turn, append_turn, append_turn_if_generation,
  reset_history, restore_failed_turn, restore, push_turn, with_history, switch_format, for_mode,
  committed, speaks,
}

-- The calls that change a room, from any task that has it.
pub data RoomCall : Type 0 where
  begin : WireFormat → RoomCall
  append : WireFormat → List Value → RoomCall
  commit : ℕ → WireFormat → List Value → RoomCall
  fail : ℕ → Option FailedTurnRollback → RoomCall
  reset : RoomCall
  configure : RoomSettings → RoomCall

map_second : Option (Bool × RoomState) → Option RoomState
map_second none = none
map_second (some (done, room)) = some room

-- `none` is a panic.
pub after_call : RoomCall → RoomState → Option RoomState
unfolding map_second
after_call (begin wire_format) room = some (begin_turn wire_format room).1
after_call (append wire_format items) room = append_turn wire_format items room
after_call (commit generation wire_format items) room =
    map_second (append_turn_if_generation generation wire_format items room)
after_call (fail generation rollback) room = some (restore_failed_turn generation rollback room).1
after_call reset room = some (reset_history room)
after_call (configure settings) room = some (record room { settings = settings })

continue_calls : Option RoomState → (RoomState → Option RoomState) → Option RoomState
continue_calls none f = none
continue_calls (some room) f = f room

unfoldable pub after_calls : List RoomCall → RoomState → Option RoomState
unfolding after_call continue_calls
after_calls [] room = some room
after_calls (c ∷ cs) room = continue_calls (after_call c room) (λ room'. after_calls cs room')

generation-push_turn :
    (items : List Value) (room after : RoomState)
    → push_turn items room ≡ some after
    → after.generation ≡ room.generation
unfolding push_turn with_history
generation-push_turn items room after h = ground arith

-- One step of the counter, or none.
abbrev Counted : ℕ → ℕ → Type 0
Counted before after = (after ≡ before) ⊎ (after ≡ (before + 1) % 2 ^ 64)

generation-append_turn :
    (wire_format : WireFormat) (items : List Value) (room after : RoomState)
    → append_turn wire_format items room ≡ some after
    → Counted room.generation after.generation
unfolding append_turn switch_format for_mode
generation-append_turn wire_format items room after h = ground (
  arith,
  generation-push_turn items
      (for_mode (switch_format wire_format room).settings.mode (switch_format wire_format room))
      after,
)

generation-after_call :
    (c : RoomCall) (room after : RoomState)
    → after_call c room ≡ some after
    → Counted room.generation after.generation
unfolding after_call begin_turn append_turn_if_generation committed restore_failed_turn restore
    reset_history
generation-after_call (begin wire_format) room after h = ground arith
generation-after_call (append wire_format items) room after h =
    generation-append_turn wire_format items room after h
generation-after_call (commit generation wire_format items) room after h =
    ground (arith, generation-append_turn wire_format items room after)
generation-after_call (fail generation rollback) room after h = ground arith
generation-after_call reset room after h = ground arith
generation-after_call (configure settings) room after h = ground arith

below_modulus :
    (room mid : RoomState)
    → room.generation < 2 ^ 64
    → Counted room.generation mid.generation
    → mid.generation < 2 ^ 64
below_modulus room mid bound (inl same) = omega arith
below_modulus room mid bound (inr next) = omega arith

generation-after_calls :
    (cs : List RoomCall) (room after : RoomState)
    → room.generation < 2 ^ 64
    → after_calls cs room ≡ some after
    → (k : ℕ) × (k ≤ length cs) × (after.generation ≡ (room.generation + k) % 2 ^ 64)
unfolding after_calls continue_calls
generation-after_calls [] room after bound h = (0, omega arith, ground arith)
generation-after_calls (c ∷ cs) room after bound h = elim (Option-cases (after_call c room)) [
  | inl panic ↦ absurd (ground arith)
  | inr (mid, called) ↦
      let (k, few, counted) =
        generation-after_calls cs mid after
          (below_modulus room mid bound (generation-after_call c room mid called)) (ground arith) in
      elim (generation-after_call c room mid called) [
        | inl same ↦ (k, omega arith, omega arith)
        | inr next ↦ (suc k, omega arith, omega arith)
      ]
]

generation-reset_history :
    (room : RoomState) → (reset_history room).generation ≡ (room.generation + 1) % 2 ^ 64
unfolding reset_history
generation-reset_history room = refl

-- A provider call that was in flight when the history was reset can do nothing any more: after the
-- reset and any further calls on the room, fewer than 2^64 - 1, that did not panic, its commit is
-- refused and its rollback is refused, and both leave the room as it is.
pub reset_history-Discards :
    (room after : RoomState) (cs : List RoomCall) (wire_format : WireFormat) (items : List Value)
    (rollback : Option FailedTurnRollback)
    → room.generation < 2 ^ 64
    → length cs < 2 ^ 64 - 1
    → after_calls cs (reset_history room) ≡ some after
    → (append_turn_if_generation room.generation wire_format items after ≡ some (false, after))
      × (restore_failed_turn room.generation rollback after ≡ (false, after))
unfolding append_turn_if_generation restore_failed_turn
reset_history-Discards room after cs wire_format items rollback bound few h =
    let (k, short, counted) =
      generation-after_calls cs (reset_history room) after
        (omega (arith, generation-reset_history room)) h in
    let distinct : after.generation ≢ room.generation =
      omega (arith, counted, generation-reset_history room) in
    let other : (after.generation == room.generation) ≡ false = ground (arith, distinct) in
    (rw other, rw other)

-- A failed turn whose `begin_turn` changed the wire format, or did not, is undone by its rollback
-- if nothing else has touched the generation: whatever settings were chosen in between, the rollback
-- is accepted, and the room has its wire format and its history back and keeps those settings.
pub restore_failed_turn-begin_turn :
    (room : RoomState) (wire_format : WireFormat) (settings : RoomSettings)
    → (restored : RoomState) × (restore_failed_turn
          (begin_turn wire_format room).1.generation
          (begin_turn wire_format room).0.rollback
          (record (begin_turn wire_format room).1 { settings = settings })
        ≡ (true, restored))
      × (restored.settings ≡ settings)
      × (restored.wire_format ≡ room.wire_format)
      × (restored.history ≡ room.history)
      × (restored.history_turns ≡ room.history_turns)
unfolding begin_turn restore_failed_turn restore
restore_failed_turn-begin_turn room wire_format settings =
    elim (Bool-cases (speaks room.wire_format wire_format)) [
      | inl same ↦ (record room { settings = settings }, ground arith, refl, refl, refl, refl)
      | inr other ↦ (
        record room {
          settings = settings;
          generation = wrapping_add (wrapping_add room.generation 1) 1;
        },
        ground arith,
        refl,
        refl,
        refl,
        refl,
      )
    ]

-- A room of another generation takes neither a turn nor a rollback.
pub stale_lem :
    (generation : ℕ) (wire_format : WireFormat) (items : List Value)
    (rollback : Option FailedTurnRollback) (room : RoomState)
    → (room.generation == generation) ≡ false
    → (append_turn_if_generation generation wire_format items room ≡ some (false, room))
      × (restore_failed_turn generation rollback room ≡ (false, room))
unfolding append_turn_if_generation restore_failed_turn
stale_lem generation wire_format items rollback room h = (rw h refl, rw h refl)
