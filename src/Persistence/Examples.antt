-- ===== src/Persistence/Examples.antt =====
-- A chat's mode is changed while the disk takes the first write and refuses the second.
use tellm.Base.{
  ℕ, ◌≡◌, refl, true, Option, none, some, [], ◌∷◌, I64, Text, codes, if◌then◌else◌, ◌==◌,
}
use tellm.Rooms.{RoomState, default_settings, message}
use tellm.Rooms.Table
use tellm.Rooms.Table.{RoomStates, from_settings}
use tellm.Persistence.{Writer, mutate_room, remove_room}
use tellm.Persistence.Transactions.{
  room_before, rolled_back, file_after, mutate_room-saved, mutate_room-failed, remove_room_lem,
}

-- The disk is full behind the first write.
abbrev outcomes : ℕ → Option Text
outcomes n = if n == 0 then none else some (codes "disk full")

abbrev writer : ℕ → Writer Text
writer n = record {
  running = true;
  outcomes = outcomes;
  writes = n;
  config_file = none;
  rooms_file = some ((7, default_settings) ∷ []);
}

abbrev rooms : RoomStates
rooms = from_settings ((7, default_settings) ∷ [])

abbrev to_message_mode : RoomState → RoomState
to_message_mode r = record r { settings = record r.settings { mode = message } }

abbrev undisturbed : RoomStates → RoomStates
undisturbed table = table

saved : (mutate_room 8 to_message_mode undisturbed rooms (writer 0)).0.0 ≡ none
unfolding mutate_room tellm.Persistence.save_rooms
saved = refl

mutate_room-saved_example :
    (mutated : RoomStates) × ((mutate_room 8 to_message_mode undisturbed rooms (writer 0)).0.1
      ≡ undisturbed mutated)
    × ((mutate_room 8 to_message_mode undisturbed rooms (writer 0)).1.rooms_file
        ≡ some (Table.settings mutated))
    × ((j : I64)
        → Table.get j mutated
          ≡ (if 8 == j then some (to_message_mode (room_before 8 rooms)) else Table.get j rooms))
mutate_room-saved_example = mutate_room-saved 8 to_message_mode undisturbed rooms (writer 0) saved

abbrev failure : Text
failure = codes "failed to persist room 7; settings mutation rolled back: disk full"

refused : (mutate_room 7 to_message_mode undisturbed rooms (writer 1)).0.0 ≡ some failure
unfolding mutate_room tellm.Persistence.save_rooms tellm.Base.Decimal.i64_to_string
    tellm.Base.Decimal.decimal
refused = refl

mutate_room-failed_example :
    (mutated : RoomStates) × ((j : I64)
      → Table.get j mutated
        ≡ (if 7 == j then some (to_message_mode (room_before 7 rooms)) else Table.get j rooms))
    × ((mutate_room 7 to_message_mode undisturbed rooms (writer 1)).1.rooms_file
        ≡ (writer 1).rooms_file)
    × ((j : I64)
        → Table.get j (mutate_room 7 to_message_mode undisturbed rooms (writer 1)).0.1 ≡ (
            if 7 == j
            then rolled_back (Table.get 7 rooms) (Table.get 7 (undisturbed mutated))
            else Table.get j (undisturbed mutated)))
mutate_room-failed_example =
    mutate_room-failed 7 to_message_mode undisturbed rooms (writer 1) failure refused

remove_room_example :
    (Table.get 7 (remove_room 7 rooms (writer 1)).0.1
      ≡ (if 7 == 7 then none else Table.get 7 rooms))
    × ((remove_room 7 rooms (writer 1)).1.rooms_file
        ≡ file_after
            (remove_room 7 rooms (writer 1)).0.0
            (Table.settings (remove_room 7 rooms (writer 1)).0.1)
            (writer 1).rooms_file)
remove_room_example = remove_room_lem 7 7 rooms (writer 1)
