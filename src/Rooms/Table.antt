-- ===== src/Rooms/Table.antt =====
-- src/rooms.rs: `RoomStates`, the rooms by chat.
pub mod File
use tellm.Base.{
  ℕ, ◌≡◌, refl, Option, none, some, List, [], ◌∷◌, I64, arith, ◌==◌, eq_refl, if◌then◌else◌,
}
use tellm.Base.IdMap
use tellm.Base.IdMap.{IdMap, map_option, get-insert, get-map_values}
use tellm.Rooms.{RoomSettings, RoomState, default_settings, new_room, reset_history}

pub record RoomStates : Type 0 where
  pub rooms : IdMap RoomState

unfoldable pub from_settings : IdMap RoomSettings → RoomStates
from_settings settings = record { rooms = IdMap.map_values new_room settings }

unfoldable pub get : I64 → RoomStates → Option RoomState
get chat_id t = IdMap.get chat_id t.rooms

-- The entry's room, and the table that has it.
entry : Option RoomState → I64 → RoomStates → RoomState × RoomStates
entry none chat_id t = (
  new_room default_settings,
  record { rooms = IdMap.insert chat_id (new_room default_settings) t.rooms },
)
entry (some room) chat_id t = (room, t)

unfoldable pub get_or_default : I64 → RoomStates → RoomState × RoomStates
unfolding entry
get_or_default chat_id t = entry (IdMap.get chat_id t.rooms) chat_id t

-- A write through a reference to the room of a chat that has one.
unfoldable pub put : I64 → RoomState → RoomStates → RoomStates
put chat_id room t = record { rooms = IdMap.insert chat_id room t.rooms }

settings_of : RoomState → RoomSettings
settings_of room = room.settings

unfoldable pub settings : RoomStates → IdMap RoomSettings
unfolding settings_of
settings t = IdMap.map_values settings_of t.rooms

unfoldable pub reset_all_history : RoomStates → RoomStates
reset_all_history t = record { rooms = IdMap.map_values reset_history t.rooms }

unfoldable pub remove : I64 → RoomStates → Option RoomState × RoomStates
remove chat_id t = (IdMap.get chat_id t.rooms, record { rooms = IdMap.remove chat_id t.rooms })

-- The settings that a snapshot has for a chat are those of its room.
pub get-settings :
    (chat_id : I64) (t : RoomStates)
    → IdMap.get chat_id (settings t) ≡ map_option (λ (r : RoomState). r.settings) (get chat_id t)
unfolding settings get
get-settings chat_id t = get-map_values settings_of chat_id t.rooms

pub get-put :
    (k j : I64) (room : RoomState) (t : RoomStates)
    → get j (put k room t) ≡ (if k == j then some room else get j t)
unfolding get put
get-put k j room t = get-insert k j room t.rooms

pub get-remove :
    (k j : I64) (t : RoomStates) → get j (remove k t).1 ≡ (if k == j then none else get j t)
unfolding get remove
get-remove k j t = IdMap.get-remove k j t.rooms

-- The room that a chat gets is in the table afterwards, and no other chat sees a change.
pub get-get_or_default :
    (k j : I64) (t : RoomStates)
    → get j (get_or_default k t).1 ≡ (if k == j then some (get_or_default k t).0 else get j t)
unfolding get get_or_default
get-get_or_default k j t = ground (arith, get-insert k j (new_room default_settings) t.rooms)
