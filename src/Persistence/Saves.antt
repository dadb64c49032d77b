-- ===== src/Persistence/Saves.antt =====
-- What a save does to the configuration's file, and a writer whose writes all succeed.
use tellm.Base.{◌≡◌, ℕ, true, none, I64, arith}
use tellm.Base.IdMap.{IdMap}
use tellm.Rooms.{RoomSettings}
use tellm.Rooms.Table
use tellm.Rooms.Table.{RoomStates}
use tellm.Persistence.{Writer, save_config, save_rooms, remove_room}
use tellm.Persistence.Transactions.{file_after}

module _ {Config : Type 0} where
  -- The configuration's file after a save of either kind.
  pub config_file-save_config :
      (config : Config) (w : Writer Config)
      → (save_config config w).1.config_file
        ≡ file_after (save_config config w).0 config w.config_file
  unfolding save_config
  config_file-save_config config w = ground arith

  pub config_file-save_rooms :
      (settings : IdMap RoomSettings) (w : Writer Config)
      → (save_rooms settings w).1.config_file ≡ w.config_file
  unfolding save_rooms
  config_file-save_rooms settings w = ground arith

  pub config_file-remove_room :
      (chat_id : I64) (rooms : RoomStates) (w : Writer Config)
      → (remove_room chat_id rooms w).1.config_file ≡ w.config_file
  unfolding remove_room
  config_file-remove_room chat_id rooms w =
      config_file-save_rooms (Table.settings (Table.remove chat_id rooms).1) w

  -- A writer whose writes all succeed.
  pub record IsReliable (w : Writer Config) : Type 0 where
    pub is_running : w.running ≡ true
    pub succeeds : (n : ℕ) → w.outcomes n ≡ none

  pub save_config-IsReliable :
      (config : Config) (w : Writer Config)
      → IsReliable w
      → ((save_config config w).0 ≡ none) × IsReliable (save_config config w).1
  unfolding save_config
  save_config-IsReliable config w h =
      let ok = h.succeeds w.writes in
      let running = h.is_running in
      (
        ground arith,
        record { is_running = ground arith; succeeds = λ n. ground (arith, h.succeeds n) },
      )
