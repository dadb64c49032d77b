-- ===== src/Runtime/Messages/Turns.antt =====
-- A whole turn of an allowed chat that nothing interrupts.
use tellm.Base.{
  ◌≡◌, ◌-◌, ◌∙◌, ◌⊎◌, inr, refl, ap, ℕ, true, Option, none, some, List, [], ◌∷◌, ◌++◌, Text, I64,
  arith, eq_refl, drop, concat,
}
use tellm.Core.{ChatResponse, ChatRequest, ContentPart, Value}
use tellm.Config.{ModelConfig, WireFormat}
use tellm.Rooms.{RoomState, append_turn_if_generation}
use tellm.Rooms.History.{Holds, Fits}
use tellm.Rooms.Table
use tellm.Rooms.Table.{get-put, get-get_or_default}
use tellm.Turn.{PreparedChatRequest, prepare_chat_request}
use tellm.Turn.Exchange.{
  kept_turns, known_turns, prepare_chat_request-exchange, model_config-prepare,
}
use tellm.Runtime.ConfigEdits.{get_model, selected_model_key}
use tellm.Runtime.World.{World, alone, worker_can_reply, chat_is_allowed, send_command_reply}
use tellm.Runtime.Messages.{
  commit_room, put_back, committed_answer, after_call, built, with_model, build_chat_request,
  notice, called, finished, send_response, handle_model_message,
}

-- What stays the same when a notice is sent: all that a turn reads.
notice-same :
    (k : I64) (worker_id : ℕ) (o : Option Text) (w : World)
    → ((notice alone k worker_id o w).rooms ≡ w.rooms)
      × ((notice alone k worker_id o w).access ≡ w.access)
      × ((notice alone k worker_id o w).workers ≡ w.workers)
unfolding notice send_command_reply
notice-same k worker_id none w = (refl, refl, refl)
notice-same k worker_id (some t) w = (ground arith, ground arith, ground arith)

-- The chat's room before a turn, and the world of the provider's call.
abbrev pub room_of : I64 → World → RoomState
room_of k w = (Table.get_or_default k w.rooms).0

asked : I64 → ℕ → ModelConfig → List ContentPart → World → World
asked k worker_id model input w =
    let (prepared, room) = prepare_chat_request model input (room_of k w) in
    notice alone k worker_id prepared.reset_notice
      (record w { rooms = Table.put k room (Table.get_or_default k w.rooms).1 })

can_reply-allowed :
    (k : I64) (worker_id : ℕ) (w : World)
    → worker_can_reply k worker_id w ≡ true
    → chat_is_allowed k w ≡ true
unfolding worker_can_reply
can_reply-allowed k worker_id w h = ground arith

build_lem :
    (k : I64) (input : List ContentPart) (model : ModelConfig) (w : World)
    → chat_is_allowed k w ≡ true
    → get_model (selected_model_key w.config (room_of k w) k) w.config.models ≡ some model
    → build_chat_request alone k input w ≡ (
      inr (prepare_chat_request model input (room_of k w)).0,
      record w {
        rooms =
            Table.put k
              (prepare_chat_request model input (room_of k w)).1
              (Table.get_or_default k w.rooms).1;
      },
    )
unfolding build_chat_request with_model built
build_lem k input model w allowed found = rw (allowed, found) refl

handle_lem :
    (decode : Text → Text ⊎ List ℕ) (k : I64) (worker_id : ℕ)
    (dispatch : ModelConfig → ChatRequest → Text ⊎ ChatResponse) (part : ContentPart)
    (parts : List ContentPart) (model : ModelConfig) (w : World)
    → worker_can_reply k worker_id w ≡ true
    → get_model (selected_model_key w.config (room_of k w) k) w.config.models ≡ some model
    → let prepared = (prepare_chat_request model (part ∷ parts) (room_of k w)).0 in
      handle_model_message decode alone k worker_id dispatch (inr (part ∷ parts)) w
      ≡ after_call decode alone k worker_id prepared
          (dispatch prepared.model_config prepared.request)
          (asked k worker_id model (part ∷ parts) w)
unfolding handle_model_message asked called
handle_lem decode k worker_id dispatch part parts model w can found =
    rw can
      (rw (build_lem k (part ∷ parts) model w (can_reply-allowed k worker_id w can) found) refl)

get-asked :
    (k : I64) (worker_id : ℕ) (model : ModelConfig) (input : List ContentPart) (w : World)
    → Table.get k (asked k worker_id model input w).rooms
      ≡ some (prepare_chat_request model input (room_of k w)).1
unfolding asked
get-asked k worker_id model input w =
    let (prepared, room) = prepare_chat_request model input (room_of k w) in
    let before : World = record w { rooms = Table.put k room (Table.get_or_default k w.rooms).1 } in
    ap (λ t. Table.get k t) (notice-same k worker_id prepared.reset_notice before).0
    ∙ (rw (get-put, eq_refl) refl)

can_reply-asked :
    (k : I64) (worker_id : ℕ) (model : ModelConfig) (input : List ContentPart) (w : World)
    → worker_can_reply k worker_id (asked k worker_id model input w)
      ≡ worker_can_reply k worker_id w
unfolding asked worker_can_reply chat_is_allowed
can_reply-asked k worker_id model input w =
    let (prepared, room) = prepare_chat_request model input (room_of k w) in
    let before : World = record w { rooms = Table.put k room (Table.get_or_default k w.rooms).1 } in
    let (rooms, access, workers) = notice-same k worker_id prepared.reset_notice before in
    rw (access, workers) refl

can_reply-rooms :
    (k : I64) (worker_id : ℕ) (w : World) (t : Table.RoomStates)
    → worker_can_reply k worker_id w ≡ true
    → worker_can_reply k worker_id (record w { rooms = t }) ≡ true
unfolding worker_can_reply chat_is_allowed
can_reply-rooms k worker_id w t h = h

commit_room-done :
    (g : ℕ) (f : WireFormat) (items : List Value) (o : Option RoomState) (room after : RoomState)
    → o ≡ some room
    → append_turn_if_generation g f items room ≡ some (true, after)
    → commit_room g f items o ≡ some (true, some after)
unfolding commit_room
commit_room-done g f items o room after here done = rw here (rw (done, commit_room) refl)

good_answer :
    (decode : Text → Text ⊎ List ℕ) (k : I64) (worker_id : ℕ) (prepared : PreparedChatRequest)
    (response : ChatResponse) (w : World) (room after : RoomState)
    → worker_can_reply k worker_id w ≡ true
    → Table.get k w.rooms ≡ some room
    → append_turn_if_generation prepared.generation prepared.model_config.wire_format
        response.turn_items room
      ≡ some (true, after)
    → after_call decode alone k worker_id prepared (inr response) w
      ≡ finished (send_response decode k response (record w { rooms = Table.put k after w.rooms }))
unfolding after_call committed_answer put_back
good_answer decode k worker_id prepared response w room after can here done =
    let committed =
      commit_room-done prepared.generation prepared.model_config.wire_format response.turn_items _
        room after here done in
    rw (can, committed, can_reply-rooms k worker_id w (Table.put k after w.rooms) can) refl

-- A turn that nothing interrupts, of a chat that is allowed and whose worker is not cancelled, in a
-- room that holds some turns and whose model is configured, with a provider that answers: the request
-- carries the items of the turns that the room's mode and the model's wire format let it know, the
-- worker does not panic, and the answer is sent in a world where the room, of those turns with the
-- answer behind them, holds the newest that fit the limits, and as many as fit: the first `n` are
-- gone, the rest fits, and with one removed turn less it would not.
pub handle_model_message-exchange :
    (decode : Text → Text ⊎ List ℕ) (k : I64) (worker_id : ℕ)
    (dispatch : ModelConfig → ChatRequest → Text ⊎ ChatResponse) (part : ContentPart)
    (parts : List ContentPart) (model : ModelConfig) (w : World) (response : ChatResponse)
    (turns : List (List Value))
    → Holds turns (room_of k w)
    → worker_can_reply k worker_id w ≡ true
    → get_model (selected_model_key w.config (room_of k w) k) w.config.models ≡ some model
    → dispatch model (prepare_chat_request model (part ∷ parts) (room_of k w)).0.request
      ≡ inr response
    → let before = known_turns (room_of k w) (kept_turns model.wire_format (room_of k w) turns) in
      ((prepare_chat_request model (part ∷ parts) (room_of k w)).0.request.history ≡ concat before)
      × ((n : ℕ) × (after : RoomState) × (w' : World) × (handle_model_message decode alone k
              worker_id dispatch
              (inr (part ∷ parts))
              w
            ≡ finished (send_response decode k response w'))
          × (Table.get k w'.rooms ≡ some after)
          × Holds (drop n (before ++ response.turn_items ∷ [])) after
          × Fits (drop n (before ++ response.turn_items ∷ []))
          × ((n ≡ 0) ⊎ (¬ Fits (drop (n - 1) (before ++ response.turn_items ∷ [])))))
handle_model_message-exchange decode k worker_id dispatch part parts model w response turns holds
      can found answered =
    let input = part ∷ parts in
    let (n, after, history, done, held, fits, least, next) =
      prepare_chat_request-exchange turns response.turn_items model input input (room_of k w)
        holds in
    let w1 = asked k worker_id model input w in
    let main = handle_lem decode k worker_id dispatch part parts model w can found in
    let room = (prepare_chat_request model input (room_of k w)).1 in
    let prepared = (prepare_chat_request model input (room_of k w)).0 in
    let same : prepared.model_config ≡ model = model_config-prepare model input (room_of k w) in
    let appended : append_turn_if_generation prepared.generation prepared.model_config.wire_format
          response.turn_items room
        ≡ some (true, after) =
      rw same done in
    let sent =
      good_answer decode k worker_id prepared response w1 room after
        (can_reply-asked k worker_id model input w ∙ can) (get-asked k worker_id model input w)
        appended in
    (
      history,
      (
        n,
        after,
        record w1 { rooms = Table.put k after w1.rooms },
        main ∙ (rw (same, answered) sent),
        rw (get-put, eq_refl) refl,
        held,
        fits,
        least,
      ),
    )
