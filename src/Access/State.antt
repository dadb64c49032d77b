-- ===== src/Access/State.antt =====
-- src/access.rs: the constants and the types of access control.
use tellm.Base.{ℕ, Bool, Option, Text}
use tellm.Base.IdMap.{IdMap}
use tellm.Base.IdSet
use tellm.Config.{Config, pins}
use tellm.Base.IdSet.{IdSet}

-- Durations are in seconds.
abbrev pub pairing_code_ttl : ℕ
pairing_code_ttl = 600

abbrev pub lockout_window : ℕ
lockout_window = 300

abbrev pub lockout_duration : ℕ
lockout_duration = 300

abbrev pub max_pairing_attempts : ℕ
max_pairing_attempts = 5

abbrev pub privileged_command_stale_after : ℕ
privileged_command_stale_after = 60

-- Unix seconds, a `u64`.
abbrev pub AccessTime : Type 0
AccessTime = ℕ

pub record AccessConfig : Type 0 where
  pub allowed_chat_ids : IdSet
  pub owner_user_ids : IdSet
  pub pinned_chat_ids : IdSet

unfoldable pub from_config : Config → AccessConfig
unfolding IdSet.collect
from_config config = record {
  allowed_chat_ids = IdSet.collect config.telegram.allowed_chat_ids;
  owner_user_ids = IdSet.collect config.telegram.owner_user_ids;
  pinned_chat_ids = IdSet.collect (pins config.models);
}

unfoldable pub effective_allowed : AccessConfig → IdSet
effective_allowed c = IdSet.union c.allowed_chat_ids c.pinned_chat_ids

pub data StartupNotice : Type 0 where
  pairing_mode : StartupNotice
  restricted : ℕ → StartupNotice

pub record RoomPairing : Type 0 where
  pub code : Text
  pub newly_issued : Bool

pub data ChatAccess : Type 0 where
  allowed : ChatAccess
  unknown : Bool → ChatAccess

pub data PairingAttempt : Type 0 where
  paired already_allowed : PairingAttempt
  rejected : ℕ → PairingAttempt
  locked_out : AccessTime → PairingAttempt

pub data PrivilegedAccess : Type 0 where
  allowed not_owner stale : PrivilegedAccess

pub record PairingState : Type 0 where
  pub code : Text
  pub expires_at : AccessTime

pub record AttemptState : Type 0 where
  pub window_started_at : AccessTime
  pub count : ℕ
  pub locked_until : Option AccessTime

-- `code_generator` is a closure with a state of its own: the text of its n-th call, and how many
-- calls were made.
pub record AccessControl : Type 0 where
  pub allowed_chat_ids : IdSet
  pub owner_user_ids : IdSet
  pub pending : IdMap PairingState
  pub attempts : IdMap AttemptState
  pub hinted_unknown_chats : IdSet
  pub code_generator : ℕ → Text
  pub generated : ℕ
