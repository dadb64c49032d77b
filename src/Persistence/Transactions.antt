-- ===== src/Persistence/Transactions.antt =====
-- Room mutations as transactions: what is saved, and what a failed save leaves in memory.
use tellm.Base.{
  ◌≡◌, refl, Option, none, some, Text, I64, arith, ◌==◌, inl, inr, Option-cases, if◌then◌else◌,
}
use tellm.Base.IdMap.{IdMap, map_option}
use tellm.Rooms.{RoomSettings, RoomState}
use tellm.Rooms.Table
use tellm.Rooms.Table.{RoomStates, get-put, get-remove, get-settings, get-get_or_default}
use tellm.Persistence.{Writer, save_rooms, after_save, roll_back, mutate_room, remove_room}

-- The room that a mutation starts from: the chat's own, or a new one.
abbrev pub room_before : I64 → RoomStates → RoomState
room_before chat_id rooms = (Table.get_or_default chat_id rooms).0

-- What a rollback leaves of a room: the room as it is by then, with the settings from before; none
-- if there was none before, or if it is gone by then.
abbrev pub rolled_back : Option RoomState → Option RoomState → Option RoomState
rolled_back none current = none
rolled_back (some before) none = none
rolled_back (some before) (some current) = some (record current { settings = before.settings })

-- The content of a file after a write with a given result.
abbrev pub file_after {ℓ} : {A : Type ℓ} → Option Text → A → Option A → Option A
file_after none new old = some new
file_after (some error) new old = old

mutated_table : I64 → (RoomState → RoomState) → RoomStates → RoomStates
mutated_table chat_id mutate rooms =
    Table.put chat_id (mutate (room_before chat_id rooms)) (Table.get_or_default chat_id rooms).1

get-mutated_table :
    (chat_id j : I64) (mutate : RoomState → RoomState) (rooms : RoomStates)
    → Table.get j (mutated_table chat_id mutate rooms)
      ≡ (if chat_id == j then some (mutate (room_before chat_id rooms)) else Table.get j rooms)
unfolding mutated_table
get-mutated_table chat_id j mutate rooms = ground (
  arith,
  get-put chat_id j (mutate (room_before chat_id rooms)) (Table.get_or_default chat_id rooms).1,
  get-get_or_default chat_id j rooms,
)

module _ {Config : Type 0} where
  rooms_file-save_rooms :
      (settings : IdMap RoomSettings) (w : Writer Config)
      → (save_rooms settings w).1.rooms_file
        ≡ file_after (save_rooms settings w).0 settings w.rooms_file
  unfolding save_rooms
  rooms_file-save_rooms settings w = ground arith

get-roll_back :
    (chat_id j : I64) (before : Option RoomState) (rooms : RoomStates)
    → Table.get j (roll_back (map_option (λ (r : RoomState). r.settings) before) chat_id rooms)
      ≡ (if chat_id == j then rolled_back before (Table.get chat_id rooms) else Table.get j rooms)
unfolding roll_back
get-roll_back chat_id j none rooms = get-remove chat_id j rooms
get-roll_back chat_id j (some before) rooms = elim (Option-cases (Table.get chat_id rooms)) [
  | inl gone ↦ ground (arith, gone)
  | inr (current, here) ↦
      rw here (get-put chat_id j (record current { settings = before.settings }) rooms)
]

after_save-failed :
    (error : Text) (before : Option RoomSettings) (chat_id : I64) (rooms : RoomStates)
    → ¬ ((after_save (some error) before chat_id rooms).0 ≡ none)
unfolding after_save
after_save-failed error before chat_id rooms h = cc

after_save-ok :
    (before : Option RoomSettings) (chat_id : I64) (rooms : RoomStates) (error : Text)
    → ¬ ((after_save none before chat_id rooms).0 ≡ some error)
unfolding after_save
after_save-ok before chat_id rooms error h = cc

abbrev settings_before : I64 → RoomStates → Option RoomSettings
settings_before chat_id rooms = map_option (λ (r : RoomState). r.settings) (Table.get chat_id rooms)

module _ {Config : Type 0} where
  -- The three parts of a mutation's result, by the result of its save.
  mutate_room_lem :
      (chat_id : I64) (mutate : RoomState → RoomState) (others : RoomStates → RoomStates)
      (rooms : RoomStates) (w : Writer Config)
      → mutate_room chat_id mutate others rooms w ≡ (
        after_save
            (save_rooms (Table.settings (mutated_table chat_id mutate rooms)) w).0
            (settings_before chat_id rooms)
            chat_id
            (others (mutated_table chat_id mutate rooms)),
        (save_rooms (Table.settings (mutated_table chat_id mutate rooms)) w).1,
      )
  unfolding mutate_room mutated_table
  mutate_room_lem chat_id mutate others rooms w = refl

  -- A mutation that is saved: the file has the settings of the mutated table, in which the chat's
  -- room is the mutation of its room before, or of a new one, and every other chat `j` has the room
  -- it had; the memory has that table, with what other tasks did to it meanwhile.
  pub mutate_room-saved :
      (chat_id : I64) (mutate : RoomState → RoomState) (others : RoomStates → RoomStates)
      (rooms : RoomStates) (w : Writer Config)
      → (mutate_room chat_id mutate others rooms w).0.0 ≡ none
      → (mutated : RoomStates) × ((mutate_room chat_id mutate others rooms w).0.1 ≡ others mutated)
        × ((mutate_room chat_id mutate others rooms w).1.rooms_file ≡ some (Table.settings mutated))
        × ((j : I64)
            → Table.get j mutated ≡ (
                if chat_id == j
                then some (mutate (room_before chat_id rooms))
                else Table.get j rooms))
  mutate_room-saved chat_id mutate others rooms w h =
      let mutated = mutated_table chat_id mutate rooms in
      let parts = mutate_room_lem chat_id mutate others rooms w in
      let file = rooms_file-save_rooms (Table.settings mutated) w in
      elim (Option-cases (save_rooms (Table.settings mutated) w).0) [
        | inl ok ↦ (
          mutated,
          rw (parts, ok) (unfold after_save in refl),
          rw parts (rw ok at file),
          λ j. get-mutated_table chat_id j mutate rooms,
        )
        | inr (error, failed) ↦
            absurd (after_save-failed error _ chat_id _ (rw (parts, failed) at h))
      ]

  -- A mutation that is not saved: the file is as it was. In memory the chat's room has its settings
  -- from before the mutation and, beside them, all that it has by the time of the failure; a room
  -- that was not there before is removed, and one that is gone by then stays gone. Every other chat
  -- `j` has the room that it has by then.
  pub mutate_room-failed :
      (chat_id : I64) (mutate : RoomState → RoomState) (others : RoomStates → RoomStates)
      (rooms : RoomStates) (w : Writer Config) (error : Text)
      → (mutate_room chat_id mutate others rooms w).0.0 ≡ some error
      → (mutated : RoomStates) × ((j : I64)
          → Table.get j mutated ≡ (
              if chat_id == j
              then some (mutate (room_before chat_id rooms))
              else Table.get j rooms))
        × ((mutate_room chat_id mutate others rooms w).1.rooms_file ≡ w.rooms_file)
        × ((j : I64)
            → Table.get j (mutate_room chat_id mutate others rooms w).0.1 ≡ (
                if chat_id == j
                then rolled_back (Table.get chat_id rooms) (Table.get chat_id (others mutated))
                else Table.get j (others mutated)))
  mutate_room-failed chat_id mutate others rooms w error h =
      let mutated = mutated_table chat_id mutate rooms in
      let parts = mutate_room_lem chat_id mutate others rooms w in
      let file = rooms_file-save_rooms (Table.settings mutated) w in
      elim (Option-cases (save_rooms (Table.settings mutated) w).0) [
        | inl ok ↦ absurd (after_save-ok _ chat_id _ error (rw (parts, ok) at h))
        | inr (cause, failed) ↦ (
          mutated,
          λ j. get-mutated_table chat_id j mutate rooms,
          rw parts (rw failed at file),
          λ j.
              rw (parts, failed)
                (unfold after_save in
                  get-roll_back chat_id j (Table.get chat_id rooms) (others mutated)),
        )
      ]

  -- A removed room is gone from memory whether or not the removal is saved, and every other chat `j`
  -- keeps its room; the file has the settings of the rooms that are left, if they were saved.
  pub remove_room_lem :
      (chat_id j : I64) (rooms : RoomStates) (w : Writer Config)
      → (Table.get j (remove_room chat_id rooms w).0.1
          ≡ (if chat_id == j then none else Table.get j rooms))
        × ((remove_room chat_id rooms w).1.rooms_file
            ≡ file_after
                (remove_room chat_id rooms w).0.0
                (Table.settings (remove_room chat_id rooms w).0.1)
                w.rooms_file)
  unfolding remove_room
  remove_room_lem chat_id j rooms w = (
    get-remove chat_id j rooms,
    rooms_file-save_rooms (Table.settings (Table.remove chat_id rooms).1) w,
  )
