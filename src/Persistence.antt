-- ===== src/Persistence.antt =====
-- src/persistence.rs: the writer thread, and the room mutations that wait for it. A call returns its
-- error text, or `none` for `Ok(())`.
pub mod Transactions
pub mod Saves
mod Examples
use tellm.Base.{
  ℕ, ◌+◌, Bool, true, false, Option, none, some, List, [], ◌∷◌, ◌++◌, Text, codes, I64,
  if◌then◌else◌,
}
use tellm.Base.Decimal.{i64_to_string}
use tellm.Base.IdMap
use tellm.Base.IdMap.{IdMap, map_option}
use tellm.Rooms.{RoomSettings, RoomState}
use tellm.Rooms.Table
use tellm.Rooms.Table.{RoomStates}

-- What the writer thread has done and will meet: the files as they were last written, and the
-- outcomes of the coming writes (`none` is success), which the file system decides. `Config` is the
-- configuration, which the writer only passes on.
pub record Writer (Config : Type 0) : Type 0 where
  pub running : Bool
  pub outcomes : ℕ → Option Text
  pub writes : ℕ
  pub config_file : Option Config
  pub rooms_file : Option (IdMap RoomSettings)

pub data PersistenceCommand (Config : Type 0) : Type 0 where
  save_config_command : Config → PersistenceCommand Config
  save_rooms_command : IdMap RoomSettings → PersistenceCommand Config
  shutdown_command : PersistenceCommand Config

module _ {Config : Type 0} where
  wrote : Option Text → Option Config → Option (IdMap RoomSettings) → Writer Config → Writer Config
  wrote (some error) config rooms w = w
  wrote none config rooms w = record w { config_file = config; rooms_file = rooms }

  -- One round of the writer's loop: the reply, and the files after it.
  receive : PersistenceCommand Config → Writer Config → Option Text × Writer Config
  unfolding wrote
  receive (save_config_command config) w =
      let result = w.outcomes w.writes in
      (result, wrote result (some config) w.rooms_file (record w { writes = w.writes + 1 }))
  receive (save_rooms_command settings) w =
      let result = w.outcomes w.writes in
      (result, wrote result w.config_file (some settings) (record w { writes = w.writes + 1 }))
  receive shutdown_command w = (none, record w { running = false })

  -- Sending a command and waiting for the reply; a stopped writer refuses it.
  send : Text → PersistenceCommand Config → Writer Config → Option Text × Writer Config
  unfolding receive
  send refusal command w = if w.running then receive command w else (some refusal, w)

  unfoldable pub save_config : Config → Writer Config → Option Text × Writer Config
  unfolding send
  save_config config = send (codes "config persistence writer stopped") (save_config_command config)

  unfoldable pub save_rooms : IdMap RoomSettings → Writer Config → Option Text × Writer Config
  unfolding send
  save_rooms settings = send (codes "room persistence writer stopped") (save_rooms_command settings)

  pub shutdown : Writer Config → Option Text × Writer Config
  unfolding send
  shutdown = send (codes "persistence writer already stopped") shutdown_command

-- The rollback of a mutation that was not saved: only the settings of the chat's room, if it had
-- one before and still has one.
with_settings : Option RoomState → RoomSettings → I64 → RoomStates → RoomStates
with_settings none before chat_id rooms = rooms
with_settings (some current) before chat_id rooms =
    Table.put chat_id (record current { settings = before }) rooms

roll_back : Option RoomSettings → I64 → RoomStates → RoomStates
unfolding with_settings
roll_back (some before) chat_id rooms = with_settings (Table.get chat_id rooms) before chat_id rooms
roll_back none chat_id rooms = (Table.remove chat_id rooms).1

pub after_save : Option Text → Option RoomSettings → I64 → RoomStates → Option Text × RoomStates
unfolding roll_back
after_save none before chat_id rooms = (none, rooms)
after_save (some error) before chat_id rooms = (
  some (
      codes "failed to persist room "
      ++ (i64_to_string chat_id ++ (codes "; settings mutation rolled back: " ++ error))),
  roll_back before chat_id rooms,
)

module _ {Config : Type 0} where
  -- The table is unlocked while the snapshot is written: `others` is what other tasks do to it
  -- meanwhile. Two mutations cannot overlap, since they share a lock.
  pub mutate_room :
      I64
      → (RoomState → RoomState)
      → (RoomStates → RoomStates)
      → RoomStates
      → Writer Config
      → (Option Text × RoomStates) × Writer Config
  unfolding after_save
  mutate_room chat_id mutate others rooms w =
      let before = map_option (λ (r : RoomState). r.settings) (Table.get chat_id rooms) in
      let (room, entered) = Table.get_or_default chat_id rooms in
      let mutated = Table.put chat_id (mutate room) entered in
      let (result, w') = save_rooms (Table.settings mutated) w in
      (after_save result before chat_id (others mutated), w')

  unfoldable pub remove_room :
      I64 → RoomStates → Writer Config → (Option Text × RoomStates) × Writer Config
  remove_room chat_id rooms w =
      let (room, left) = Table.remove chat_id rooms in
      let (result, w') = save_rooms (Table.settings left) w in ((result, left), w')
