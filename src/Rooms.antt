-- ===== src/Rooms.antt =====
-- src/rooms.rs: the settings and the conversation history of a room, and the table of rooms.
mod State
mod Bytes
pub mod History
pub mod Generation
pub mod Table
mod Examples
pub use State.*
pub use Bytes.{approx_json_bytes}
use tellm.Base.{
  ℕ, zero, suc, ◌+◌, ◌≤◌, ◌<◌, ◌≡◌, Bool, true, false, ◌||◌, Option, none, some, List, [], ◌∷◌,
  ◌++◌, length, drop, ltb, leb, ◌==◌, if◌then◌else◌, saturating_add, wrapping_add, I64,
}
use tellm.Base.IdMap
use tellm.Base.IdMap.{IdMap}
use tellm.Core.{Value}
use tellm.Config.{WireFormat}

unfoldable pub new_room : RoomSettings → RoomState
new_room settings = record {
  settings = settings;
  wire_format = none;
  history = [];
  history_turns = [];
  generation = 0;
}

-- `self.wire_format != Some(wire_format)`
unfoldable pub speaks : Option WireFormat → WireFormat → Bool
speaks none w = false
speaks (some v) w = same_format v w

unfoldable pub begin_turn : WireFormat → RoomState → TurnStart × RoomState
unfolding speaks
begin_turn wire_format room =
    if speaks room.wire_format wire_format
    then (record { reset = unchanged; rollback = none }, room)
    else (
      record {
        reset = wire_format_changed room.wire_format wire_format;
        rollback = some (record {
          wire_format = room.wire_format;
          history = room.history;
          history_turns = room.history_turns;
        });
      },
      record room {
        wire_format = some wire_format;
        history = [];
        history_turns = [];
        generation = wrapping_add room.generation 1;
      },
    )

clear_history_storage : RoomState → RoomState
clear_history_storage room = record room { history = []; history_turns = [] }

invalidate_history : RoomState → RoomState
unfolding clear_history_storage
invalidate_history room =
    let room' = clear_history_storage room in
    record room' { generation = wrapping_add room'.generation 1 }

pub reset_history : RoomState → RoomState
unfolding invalidate_history
reset_history room = invalidate_history room

-- The sum of a turn's sizes, from `total` on.
items_bytes : ℕ → List Value → ℕ
items_bytes total [] = total
items_bytes total (v ∷ vs) = items_bytes (saturating_add total (approx_json_bytes v)) vs

pub turn_of : List Value → HistoryTurn
unfolding items_bytes
turn_of items = record { item_count = length items; approx_bytes = items_bytes 0 items }

history_bytes : ℕ → List HistoryTurn → ℕ
history_bytes total [] = total
history_bytes total (t ∷ ts) = history_bytes (saturating_add total t.approx_bytes) ts

pub over_limit : List HistoryTurn → Bool
unfolding history_bytes
over_limit turns =
    ltb max_history_turns (length turns) || ltb max_history_bytes (history_bytes 0 turns)

-- `Vec::drain(..n)`, which panics, `none` here, if there are fewer items.
drain : ℕ → List Value → Option (List Value)
drain n items = if leb n (length items) then some (drop n items) else none

continue :
    Option (List Value)
    → (List Value → Option (List HistoryTurn × List Value))
    → Option (List HistoryTurn × List Value)
continue none f = none
continue (some items) f = f items

-- The loop that prunes whole turns, the oldest first. An empty queue breaks it.
prune : List HistoryTurn → List Value → Option (List HistoryTurn × List Value)
unfolding over_limit drain continue
prune [] history = some ([], history)
prune (oldest ∷ turns) history =
    if over_limit (oldest ∷ turns)
    then continue (drain oldest.item_count history) (λ rest. prune turns rest)
    else some (oldest ∷ turns, history)

with_history : RoomState → Option (List HistoryTurn × List Value) → Option RoomState
with_history room none = none
with_history room (some (turns, history)) =
    some (record room { history = history; history_turns = turns })

-- `none` is the panic of `drain`.
pub push_turn : List Value → RoomState → Option RoomState
unfolding prune with_history turn_of
push_turn turn_items room =
    with_history room
      (prune (room.history_turns ++ turn_of turn_items ∷ []) (room.history ++ turn_items))

-- What `append_turn` does to the room before it pushes the turn: first for the wire format, then
-- for the mode.
switch_format : WireFormat → RoomState → RoomState
unfolding speaks invalidate_history
switch_format wire_format room =
    if speaks room.wire_format wire_format
    then room
    else invalidate_history (record room { wire_format = some wire_format })

for_mode : ChatMode → RoomState → RoomState
unfolding clear_history_storage
for_mode chat room = room
for_mode message room = clear_history_storage room

pub append_turn : WireFormat → List Value → RoomState → Option RoomState
unfolding switch_format for_mode
append_turn wire_format turn_items room =
    let room' = switch_format wire_format room in
    push_turn turn_items (for_mode room'.settings.mode room')

unfoldable pub committed : Option RoomState → Option (Bool × RoomState)
committed none = none
committed (some room) = some (true, room)

unfoldable pub append_turn_if_generation :
    ℕ → WireFormat → List Value → RoomState → Option (Bool × RoomState)
unfolding committed
append_turn_if_generation expected_generation wire_format turn_items room =
    if room.generation == expected_generation
    then committed (append_turn wire_format turn_items room)
    else some (false, room)

restore : Option FailedTurnRollback → RoomState → RoomState
restore none room = room
restore (some rollback) room = record room {
  wire_format = rollback.wire_format;
  history = rollback.history;
  history_turns = rollback.history_turns;
  generation = wrapping_add room.generation 1;
}

pub restore_failed_turn : ℕ → Option FailedTurnRollback → RoomState → Bool × RoomState
unfolding restore
restore_failed_turn expected_generation rollback room =
    if room.generation == expected_generation then (true, restore rollback room) else (false, room)
