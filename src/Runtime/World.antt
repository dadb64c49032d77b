-- ===== src/Runtime/World.antt =====
-- src/runtime.rs: what the handlers share, `RuntimeHandles`, and the calls that they make on it. A
-- handler's result is its error text, or `none` for `Ok(())`, beside the world after it.
pub mod Agreement
use tellm.Base.{
  ℕ, ◌+◌, Bool, true, false, not, ◌&&◌, Option, none, some, List, [], ◌∷◌, ◌++◌, length,
  if◌then◌else◌, Text, I64,
}
use tellm.Base.IdMap.{map_option}
use tellm.Base.IdSet
use tellm.Config.{Config}
use tellm.Rooms.{RoomState, RoomSettings}
use tellm.Rooms.Table
use tellm.Rooms.Table.{RoomStates}
use tellm.Access.{AccessControl, is_chat_allowed}
use tellm.Persistence
use tellm.Persistence.{Writer, after_save}
use tellm.Runtime.ConfigEdits.{selected_model_key, pinned_model_key, model_keys}
use tellm.Runtime.Replies.{RoomSetupReply, build_room_setup_reply}
use tellm.Runtime.Workers.{Workers, cancel_chat_worker}

-- A request to Telegram: a text, a text with the model picker of some keys, or a photo's bytes with
-- their media type.
pub data Outgoing : Type 0 where
  text_message : I64 → Text → Outgoing
  model_picker : I64 → Text → List Text → Outgoing
  photo : I64 → List ℕ → Text → Outgoing

-- Telegram's answers to the coming requests (`none` is success), and the requests made so far.
pub record Telegram : Type 0 where
  pub answers : ℕ → Option Text
  pub requests : List Outgoing

pub record World : Type 0 where
  pub config : Config
  pub rooms : RoomStates
  pub access : AccessControl
  pub writer : Writer Config
  pub workers : Workers
  pub telegram : Telegram
  -- The secret that a terminal prompt waits for.
  pub terminal_prompt : Option Text
  -- Whether a reason was sent to the shutdown channel, which the poll loop keeps open.
  pub shutdown_requested : Bool

-- What other tasks do at the pauses of a handler, by the number of the pause.
abbrev pub Others : Type 0
Others = ℕ → World → World

-- The pauses of a part of the handler, whose first one has the number `n`.
abbrev pub from : ℕ → Others → Others
from n others i = others (n + i)

-- A handler that no other task interrupts.
abbrev pub alone : Others
alone i w = w

-- A pause while the handler holds the lock of the configuration: no other task changes it.
abbrev pub holding_config : (World → World) → World → World
holding_config others w = record (others w) { config = w.config }

abbrev request : Outgoing → World → Option Text × World
request m w = (
  w.telegram.answers (length w.telegram.requests),
  record w {
    telegram = record { answers = w.telegram.answers; requests = w.telegram.requests ++ m ∷ [] };
  },
)

unfoldable pub send_command_reply : I64 → Text → World → Option Text × World
send_command_reply chat_id text w = request (text_message chat_id text) w

unfoldable pub send_model_picker : I64 → Text → List Text → World → Option Text × World
send_model_picker chat_id text keys w = request (model_picker chat_id text keys) w

unfoldable pub chat_is_allowed : I64 → World → Bool
chat_is_allowed chat_id w = is_chat_allowed chat_id w.access

unfoldable pub send_photo : I64 → List ℕ → Text → World → Option Text × World
send_photo chat_id bytes media_type w = request (photo chat_id bytes media_type) w

-- `worker_can_reply`, for the worker whose `cancelled` flag it reads.
unfoldable pub worker_can_reply : I64 → ℕ → World → Bool
unfolding chat_is_allowed
worker_can_reply chat_id worker_id w =
    not (IdSet.contains worker_id w.workers.cancelled) && chat_is_allowed chat_id w

unfoldable pub restore_unless : Option Text → Config → World → Option Text × World
restore_unless none before w = (none, w)
restore_unless (some error) before w = (some error, record w { config = before })

-- The changed configuration is saved under its lock. If that fails it is put back.
unfoldable pub save_or_restore : (World → World) → Config → World → Option Text × World
unfolding restore_unless
save_or_restore others before w =
    let (result, writer) = Persistence.save_config w.config w.writer in
    restore_unless result before (holding_config others (record w { writer = writer }))

unfoldable pub save_if : Bool → (World → World) → Config → World → Option Text × World
unfolding save_or_restore
save_if changed others before w = if changed then save_or_restore others before w else (none, w)

-- `persistence.mutate_room`: other tasks run while the snapshot is written.
unfoldable pub mutate_room :
    (World → World) → I64 → (RoomState → RoomState) → World → Option Text × World
mutate_room others chat_id mutate w =
    let before = map_option (λ (r : RoomState). r.settings) (Table.get chat_id w.rooms) in
    let (room, entered) = Table.get_or_default chat_id w.rooms in
    let mutated = Table.put chat_id (mutate room) entered in
    let (result, writer) = Persistence.save_rooms (Table.settings mutated) w.writer in
    let w' = others (record w { rooms = mutated; writer = writer }) in
    let (answer, rooms) = after_save result before chat_id w'.rooms in
    (answer, record w' { rooms = rooms })

-- `persistence.remove_room`, which looks at nothing after its pause.
unfoldable pub remove_room : (World → World) → I64 → World → Option Text × World
remove_room others chat_id w =
    let ((result, rooms), writer) = Persistence.remove_room chat_id w.rooms w.writer in
    (result, others (record w { rooms = rooms; writer = writer }))

-- The prompt is made from the configuration and the room at one time, under both locks.
unfoldable pub room_setup_reply : I64 → Bool → World → RoomSetupReply × World
room_setup_reply chat_id became_owner w =
    let (room, rooms) = Table.get_or_default chat_id w.rooms in
    (
      build_room_setup_reply (selected_model_key w.config room chat_id)
          (pinned_model_key w.config chat_id) (model_keys w.config.models) became_owner,
      record w { rooms = rooms },
    )

unfoldable pub setup_request : I64 → RoomSetupReply → World → Option Text × World
unfolding send_model_picker send_command_reply
setup_request chat_id setup w = elim setup.model_keys [
  | some keys ↦ send_model_picker chat_id setup.text keys w
  | none ↦ send_command_reply chat_id setup.text w
]

-- Nothing is sent to a chat that is denied by then.
unfoldable pub send_room_setup :
    (World → World) → I64 → RoomSetupReply → World → Option Text × World
unfolding chat_is_allowed setup_request
send_room_setup others chat_id setup w =
    if chat_is_allowed chat_id w then setup_request chat_id setup (others w) else (none, w)
