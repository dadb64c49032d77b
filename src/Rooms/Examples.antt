-- ===== src/Rooms/Examples.antt =====
-- A room with one turn behind it.
use tellm.Base.{
  ℕ, ◌+◌, ◌-◌, ◌%◌, ◌^◌, ◌<◌, ◌≡◌, ◌⊎◌, refl, ap, sym, Bool, true, false, Option, none, some, List,
  [], ◌∷◌, ◌++◌, drop, I64, Text, codes, arith, if◌then◌else◌,
}
use tellm.Base.IdMap
use tellm.Base.IdMap.{IdMap}
use tellm.Core.{Value, string, ThinkingLevel}
use tellm.Config.{gemini}
use tellm.Rooms.{
  RoomState, RoomSettings, ChatMode, chat, default_settings, new_room, push_turn, append_turn,
  append_turn_if_generation, restore_failed_turn, reset_history, begin_turn, speaks,
}
use tellm.Rooms.History.{Holds, Fits, continued, push_turn-Holds, append_turn-Holds}
use tellm.Rooms.Generation.{
  begin, configure, after_calls, reset_history-Discards, restore_failed_turn-begin_turn,
}
use tellm.Rooms.Table.File.{Toml, loaded, save_settings, load_settings, load_settings-save_settings}

abbrev room : RoomState
room = new_room default_settings

abbrev items : List Value
items = string (codes "question") ∷ string (codes "answer") ∷ []

empty_room : Holds [] room
unfolding new_room
empty_room = record { items = refl; sizes = refl }

push_turn_example :
    (k : ℕ) × (after : RoomState) × (push_turn items room ≡ some after)
    × Holds (drop k ([] ++ items ∷ [])) after
    × Fits (drop k ([] ++ items ∷ []))
    × ((k ≡ 0) ⊎ (¬ Fits (drop (k - 1) ([] ++ items ∷ []))))
    × (after ≡ record room { history = after.history; history_turns = after.history_turns })
push_turn_example = push_turn-Holds [] items room empty_room

append_turn_example :
    (k : ℕ) × (after : RoomState) × (append_turn gemini items room ≡ some after)
    × Holds (drop k (continued gemini room [] ++ items ∷ [])) after
    × Fits (drop k (continued gemini room [] ++ items ∷ []))
    × ((k ≡ 0) ⊎ (¬ Fits (drop (k - 1) (continued gemini room [] ++ items ∷ []))))
    × (after.settings ≡ room.settings)
    × (after.wire_format ≡ some gemini)
    × (after.generation ≡ (
        if speaks room.wire_format gemini then room.generation else (room.generation + 1) % 2 ^ 64))
append_turn_example = append_turn-Holds [] items gemini room empty_room

abbrev after_reset : RoomState
after_reset = record room { generation = 2; wire_format = some gemini }

reset_then_begin :
    after_calls (configure default_settings ∷ begin gemini ∷ []) (reset_history room)
    ≡ some after_reset
unfolding after_calls begin_turn reset_history new_room
reset_then_begin = refl

reset_history_example :
    (append_turn_if_generation room.generation gemini items after_reset ≡ some (false, after_reset))
    × (restore_failed_turn room.generation none after_reset ≡ (false, after_reset))
reset_history_example =
    reset_history-Discards room after_reset (configure default_settings ∷ begin gemini ∷ []) gemini
      items none (unfold new_room in omega arith) (omega arith) reset_then_begin

restore_failed_turn_example :
    (restored : RoomState) × (restore_failed_turn
        (begin_turn gemini room).1.generation
        (begin_turn gemini room).0.rollback
        (record (begin_turn gemini room).1 { settings = default_settings })
      ≡ (true, restored))
    × (restored.settings ≡ default_settings)
    × (restored.wire_format ≡ room.wire_format)
    × (restored.history ≡ room.history)
    × (restored.history_turns ≡ room.history_turns)
restore_failed_turn_example = restore_failed_turn-begin_turn room gemini default_settings

-- A printer that knows files of one room with the settings of a new room, and prints the id.
print_room :
    Text → Option Text → ChatMode → Option Text → Option ThinkingLevel → Bool → Bool → Option Text
print_room id none chat none none false false = some id
print_room id _ _ _ _ _ _ = none

print_rooms : List (Text × RoomSettings) → Option Text
unfolding print_room
print_rooms ((id, s) ∷ []) =
    print_room id s.model_key s.mode s.role s.thinking s.web_search s.image_generation
print_rooms _ = none

print_rooms_sound :
    (rooms : List (Text × RoomSettings)) (text : Text)
    → print_rooms rooms ≡ some text
    → rooms ≡ (text, default_settings) ∷ []
unfolding print_rooms
print_rooms_sound rooms text h = ground arith

abbrev printer : Toml
printer = record {
  to_string_pretty = λ file. print_rooms file.rooms;
  from_str = λ text. some (record { rooms = (text, default_settings) ∷ [] });
  round_trip = λ file text h.
      ap (λ rooms. some (record { rooms = rooms })) (sym (print_rooms_sound file.rooms text h));
}

abbrev one_room : IdMap RoomSettings
one_room = (7, default_settings) ∷ []

printed : save_settings printer one_room ≡ some (codes "7")
unfolding save_settings print_rooms tellm.Base.Decimal.i64_to_string tellm.Base.Decimal.decimal
printed = refl

load_settings_example :
    (again : IdMap RoomSettings) × (load_settings printer (some (codes "7")) ≡ loaded again)
    × ((chat_id : I64) → IdMap.get chat_id again ≡ IdMap.get chat_id one_room)
load_settings_example =
    load_settings-save_settings printer one_room (codes "7") (unfold IdMap.get in (refl, tt))
      (omega arith) printed
