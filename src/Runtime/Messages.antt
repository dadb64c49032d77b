-- ===== src/Runtime/Messages.antt =====
-- src/runtime.rs, `handle_model_message`, with `send_response` of src/model_turn.rs: a turn of a
-- room's model. The provider is a parameter, and so is the decoding of base64. A panic ends the
-- worker, and nothing else.
pub mod Currency
pub mod Turns
mod Examples
pub mod Agreement
use tellm.Base.{
  ◌⊎◌, inl, inr, ℕ, ◌+◌, Bool, true, false, not, ◌&&◌, ◌||◌, Option, none, some, List, [], ◌∷◌,
  ◌++◌, is_some, is_blank, if◌then◌else◌, Text, codes, I64,
}
use tellm.Core.{ContentPart, ChatRequest, ChatResponse, GeneratedImage, Value}
use tellm.Config.{ModelConfig, WireFormat}
use tellm.Rooms.{RoomState, FailedTurnRollback, append_turn_if_generation, restore_failed_turn}
use tellm.Rooms.Table
use tellm.Rooms.Table.{RoomStates}
use tellm.Turn.{PreparedChatRequest, prepare_chat_request}
use tellm.Telegram.Strings.{find}
use tellm.Runtime.ConfigEdits.{get_model, selected_model_key}
use tellm.Runtime.World.{
  World, Others, from, chat_is_allowed, worker_can_reply, send_command_reply, send_photo,
}

-- How a turn ends: with the result of the handler, or with a panic.
pub data Ending : Type 0 where
  returned : Option Text → Ending
  panicked : Ending

abbrev pub finished : Option Text × World → Ending × World
finished (result, w) = (returned result, w)

-- `error.contains(feature)` for one of two spellings.
mentions : Text → Text → Text → Bool
mentions a b error = is_some (find a error) || is_some (find b error)

unfoldable pub provider_error_reply : Text → Text
unfolding mentions
provider_error_reply error =
    let reply = codes "Provider error: " ++ error in
    if mentions (codes "image generation") (codes "image_generation") error
    then reply ++ codes "\nTip: /imagegen off"
    else if mentions (codes "web search") (codes "web_search") error
    then reply ++ codes "\nTip: /websearch off"
    else reply

-- The result of `build_chat_request`: the prepared request, or the error text.
built : ModelConfig → List ContentPart → RoomState → I64 → World → PreparedChatRequest × World
built model input room chat_id w =
    let (prepared, room') = prepare_chat_request model input room in
    (prepared, record w { rooms = Table.put chat_id room' w.rooms })

with_model :
    Text
    → Option ModelConfig
    → List ContentPart
    → RoomState
    → I64
    → World
    → (Text ⊎ PreparedChatRequest) × World
unfolding built
with_model key none input room chat_id w =
    (inl (codes "configured model \"" ++ key ++ codes "\" was not found"), w)
with_model key (some model) input room chat_id w =
    let (prepared, w') = built model input room chat_id w in (inr prepared, w')

unfoldable pub build_chat_request :
    Others → I64 → List ContentPart → World → (Text ⊎ PreparedChatRequest) × World
unfolding with_model
build_chat_request others chat_id input w =
    let w0 = others 0 w in
    let w1 = others 1 w0 in
    let (room, rooms) = Table.get_or_default chat_id w1.rooms in
    let key = selected_model_key w1.config room chat_id in
    if chat_is_allowed chat_id w0
    then with_model key (get_model key w1.config.models) input room chat_id
        (record w1 { rooms = rooms })
    else (inl (codes "chat access was revoked"), w0)

-- The photos of a response, one behind the other; the first error ends them. Other tasks run
-- between them, which changes none of them.
after_photo : (World → Option Text × World) → Option Text × World → Option Text × World
after_photo rest (some error, w) = (some error, w)
after_photo rest (none, w) = rest w

no_images : List GeneratedImage → Bool
no_images [] = true
no_images (image ∷ images) = false

-- The room's part of a commit: whether the turn was appended, and the room.
commit_room : ℕ → WireFormat → List Value → Option RoomState → Option (Bool × Option RoomState)
commit_room generation wire_format items none = some (false, none)
commit_room generation wire_format items (some room) =
    elim (append_turn_if_generation generation wire_format items room) [
      | none ↦ none
      | some (done, room') ↦ some (done, some room')
    ]

put_back : I64 → Option RoomState → World → World
put_back chat_id none w = w
put_back chat_id (some room) w = record w { rooms = Table.put chat_id room w.rooms }

restored_room : ℕ → Option FailedTurnRollback → Option RoomState → Bool × Option RoomState
restored_room generation rollback none = (false, none)
restored_room generation rollback (some room) =
    let (done, room') = restore_failed_turn generation rollback room in (done, some room')

failed_answer : Others → I64 → ℕ → Text → World → Bool × Option RoomState → Option Text × World
unfolding put_back
failed_answer others chat_id worker_id error w (done, room) =
    let w1 = put_back chat_id room w in
    let w2 = others 0 w1 in
    if done
    then (if worker_can_reply chat_id worker_id w2
        then (none, (send_command_reply chat_id (provider_error_reply error) w2).1)
        else (none, w2))
    else (none, w1)

-- The notice that the history was reset, if there is one and the chat still may have it.
notice : Others → I64 → ℕ → Option Text → World → World
notice others chat_id worker_id none w = w
notice others chat_id worker_id (some text) w =
    let w0 = others 0 w in
    if worker_can_reply chat_id worker_id w0 then (send_command_reply chat_id text w0).1 else w0

module _ (base64_decode : Text → Text ⊎ List ℕ) where
  decoded :
      I64
      → GeneratedImage
      → (World → Option Text × World)
      → Text ⊎ List ℕ
      → World
      → Option Text × World
  unfolding after_photo
  decoded chat_id image rest (inl error) w =
      (some (codes "generated image was not valid base64: " ++ error), w)
  decoded chat_id image rest (inr bytes) w =
      after_photo rest (send_photo chat_id bytes image.media_type w)

  send_photos : I64 → List GeneratedImage → World → Option Text × World
  unfolding decoded
  send_photos chat_id [] w = (none, w)
  send_photos chat_id (image ∷ images) w =
      decoded chat_id image (send_photos chat_id images) (base64_decode image.base64) w

  unfoldable pub send_response : I64 → ChatResponse → World → Option Text × World
  unfolding send_photos no_images after_photo
  send_response chat_id response w =
      if not (is_blank response.text) || no_images response.images
      then after_photo (send_photos chat_id response.images)
          (send_command_reply chat_id response.text w)
      else send_photos chat_id response.images w

  -- What follows a commit: the answer goes out if the turn was current and the chat still may have
  -- it.
  committed_answer :
      Others → I64 → ℕ → ChatResponse → World → Option (Bool × Option RoomState) → Ending × World
  unfolding put_back send_response
  committed_answer others chat_id worker_id response w none = (panicked, w)
  committed_answer others chat_id worker_id response w (some (done, room)) =
      let w1 = put_back chat_id room w in
      let w2 = others 0 w1 in
      if done
      then (if worker_can_reply chat_id worker_id w2
          then finished (send_response chat_id response w2)
          else (returned none, w2))
      else (returned none, w1)

  -- What follows the provider's answer: `w` is the world in which it arrives.
  unfoldable pub after_call :
      Others → I64 → ℕ → PreparedChatRequest → Text ⊎ ChatResponse → World → Ending × World
  unfolding commit_room committed_answer restored_room failed_answer
  after_call others chat_id worker_id prepared (inr response) w =
      let w1 = others 0 w in
      if worker_can_reply chat_id worker_id w
      then committed_answer (from 1 others) chat_id worker_id response w1 (
          commit_room prepared.generation prepared.model_config.wire_format response.turn_items
            (Table.get chat_id w1.rooms))
      else (returned none, w)
  after_call others chat_id worker_id prepared (inl error) w =
      let w1 = others 0 w in
      finished (
        failed_answer (from 1 others) chat_id worker_id error w1
          (restored_room prepared.generation prepared.rollback (Table.get chat_id w1.rooms)))

  called :
      Others
      → I64
      → ℕ
      → (ModelConfig → ChatRequest → Text ⊎ ChatResponse)
      → (Text ⊎ PreparedChatRequest) × World
      → Ending × World
  unfolding after_call notice
  called others chat_id worker_id dispatch_provider (inl error, w) = (returned (some error), w)
  called others chat_id worker_id dispatch_provider (inr prepared, w) =
      after_call (from 2 others) chat_id worker_id prepared
        (dispatch_provider prepared.model_config prepared.request)
        (others 1 (notice others chat_id worker_id prepared.reset_notice w))

  -- `input` is the result of `content_parts_from_message`.
  unfoldable pub handle_model_message :
      Others
      → I64
      → ℕ
      → (ModelConfig → ChatRequest → Text ⊎ ChatResponse)
      → Text ⊎ List ContentPart
      → World
      → Ending × World
  unfolding build_chat_request called
  handle_model_message others chat_id worker_id dispatch_provider (inl error) w =
      (returned (some error), w)
  handle_model_message others chat_id worker_id dispatch_provider (inr []) w = (returned none, w)
  handle_model_message others chat_id worker_id dispatch_provider (inr (part ∷ parts)) w =
      let w0 = others 0 w in
      let asked =
        called (from 3 others) chat_id worker_id dispatch_provider
          (build_chat_request (from 1 others) chat_id (part ∷ parts) w0) in
      if worker_can_reply chat_id worker_id w0 then asked else (returned none, w0)
