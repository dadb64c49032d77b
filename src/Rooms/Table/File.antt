-- ===== src/Rooms/Table/File.antt =====
-- src/rooms.rs: `rooms.toml`, which holds the settings of the rooms under the text of their ids. The
-- TOML library is a parameter.
use tellm.Base.{
  ◌<◌, ◌^◌, ◌≡◌, refl, ap, ◌∙◌, Option, none, some, List, [], ◌∷◌, ◌++◌, I64, arith, Text, codes,
  or_else,
}
use tellm.Base.IdMap
use tellm.Base.IdMap.{IdMap, get-insert}
use tellm.Base.Decimal.{parse_i64, i64_to_string, parse_i64-i64_to_string}
use tellm.Rooms.{RoomSettings}

pub record RoomsToml : Type 0 where
  pub rooms : List (Text × RoomSettings)

-- `toml::to_string_pretty` and `toml::from_str`, which reads back what was printed.
pub record Toml : Type 0 where
  pub to_string_pretty : RoomsToml → Option Text
  pub from_str : Text → Option RoomsToml
  pub round_trip :
      (file : RoomsToml) (text : Text)
      → to_string_pretty file ≡ some text
      → from_str text ≡ some file

pub data Loaded : Type 0 where
  loaded : IdMap RoomSettings → Loaded
  parse_error : Loaded
  invalid : List Text → Loaded

unfoldable pub to_entries : IdMap RoomSettings → List (Text × RoomSettings)
to_entries [] = []
to_entries ((chat_id, s) ∷ m) = (i64_to_string chat_id, s) ∷ to_entries m

problem : Text → Text
problem chat_id = codes "rooms.toml contains invalid chat_id \"" ++ (chat_id ++ codes "\"")

add_entry :
    Option I64
    → Text
    → RoomSettings
    → IdMap RoomSettings × List Text
    → IdMap RoomSettings × List Text
unfolding problem
add_entry none chat_id s (rooms, problems) = (rooms, problems ++ problem chat_id ∷ [])
add_entry (some id) chat_id s (rooms, problems) = (IdMap.insert id s rooms, problems)

load_entries :
    List (Text × RoomSettings) → IdMap RoomSettings × List Text → IdMap RoomSettings × List Text
unfolding add_entry
load_entries [] state = state
load_entries ((chat_id, s) ∷ rest) state =
    load_entries rest (add_entry (parse_i64 chat_id) chat_id s state)

finish : IdMap RoomSettings × List Text → Loaded
finish (rooms, []) = loaded rooms
finish (rooms, p ∷ problems) = invalid (p ∷ problems)

parsed : Option RoomsToml → Loaded
unfolding load_entries finish
parsed none = parse_error
parsed (some file) = finish (load_entries file.rooms ([], []))

module _ (toml : Toml) where
  -- The text that is written, if it can be printed.
  unfoldable pub save_settings : IdMap RoomSettings → Option Text
  unfolding to_entries
  save_settings settings = toml.to_string_pretty (record { rooms = to_entries settings })

  -- The text of the file, or `none` if there is no file.
  pub load_settings : Option Text → Loaded
  unfolding parsed
  load_settings none = loaded []
  load_settings (some text) = parsed (toml.from_str text)

-- A map has each key once.
abbrev pub HasDistinctIds : IdMap RoomSettings → Type 0
HasDistinctIds [] = Unit
HasDistinctIds ((k, s) ∷ m) = (IdMap.get k m ≡ none) × HasDistinctIds m

abbrev pub HasI64Ids : IdMap RoomSettings → Type 0
HasI64Ids [] = Unit
HasI64Ids ((k, s) ∷ m) = (k < 2 ^ 64) × HasI64Ids m

insert_all : IdMap RoomSettings → IdMap RoomSettings → IdMap RoomSettings
insert_all [] acc = acc
insert_all ((k, s) ∷ m) acc = insert_all m (IdMap.insert k s acc)

load_entries-to_entries :
    (m acc : IdMap RoomSettings)
    → HasI64Ids m
    → load_entries (to_entries m) (acc, []) ≡ (insert_all m acc, [])
unfolding load_entries to_entries insert_all
load_entries-to_entries [] acc h = refl
load_entries-to_entries ((k, s) ∷ m) acc (fits, h) =
    ap (λ o. load_entries (to_entries m) (add_entry o (i64_to_string k) s (acc, [])))
      (parse_i64-i64_to_string k fits)
    ∙ load_entries-to_entries m (IdMap.insert k s acc) h

get-insert_all :
    (j : I64) (m acc : IdMap RoomSettings)
    → HasDistinctIds m
    → IdMap.get j (insert_all m acc) ≡ or_else (IdMap.get j m) (IdMap.get j acc)
unfolding insert_all IdMap.get
get-insert_all j [] acc h = refl
get-insert_all j ((k, s) ∷ m) acc (new, h) =
    ground (arith, get-insert_all j m (IdMap.insert k s acc) h, get-insert k j s acc)

-- Settings of distinct chats with 64-bit ids that were saved are loaded again, the same for every
-- chat, with a TOML library that reads back what it printed.
pub load_settings-save_settings :
    (toml : Toml) (settings : IdMap RoomSettings) (text : Text)
    → HasDistinctIds settings
    → HasI64Ids settings
    → save_settings toml settings ≡ some text
    → (again : IdMap RoomSettings) × (load_settings toml (some text) ≡ loaded again)
      × ((chat_id : I64) → IdMap.get chat_id again ≡ IdMap.get chat_id settings)
unfolding save_settings load_settings
load_settings-save_settings toml settings text distinct fits saved = (
  insert_all settings [],
  rw (toml.round_trip _ text saved, load_entries-to_entries settings [] fits),
  λ chat_id. get-insert_all chat_id settings [] distinct ∙ (unfold IdMap.get in ground arith),
)
