-- ===== src/Turn/Exchange.antt =====
-- What a provider is told of the turns before.
use tellm.Base.{
  ℕ, ◌-◌, ◌⊎◌, ◌≡◌, refl, ap, ◌∙◌, true, some, List, [], ◌∷◌, ◌++◌, arith, drop, concat,
  if◌then◌else◌, eq_refl, subst,
}
use tellm.Core.{ContentPart, Value}
use tellm.Config.{WireFormat, anthropic, responses, compat, gemini, ModelConfig}
use tellm.Rooms.{
  RoomState, RoomSettings, chat, message, begin_turn, speaks, append_turn_if_generation, committed,
  same_format,
}
use tellm.Rooms.History.{Holds, Fits, continued, append_turn-Holds}
use tellm.Turn.{prepare_chat_request, chat_request_from_room, history_of_mode}

same_format_self : (w : WireFormat) → same_format w w ≡ true
same_format_self anthropic = refl
same_format_self responses = refl
same_format_self compat = refl
same_format_self gemini = refl

-- The turns that a room of a wire format holds when a turn begins.
abbrev pub kept_turns : WireFormat → RoomState → List (List Value) → List (List Value)
kept_turns wire_format room turns = if speaks room.wire_format wire_format then turns else []

begun :
    (turns : List (List Value)) (wire_format : WireFormat) (room : RoomState)
    → Holds turns room
    → Holds (kept_turns wire_format room turns) (begin_turn wire_format room).1
      × (speaks (begin_turn wire_format room).1.wire_format wire_format ≡ true)
      × ((begin_turn wire_format room).1.settings ≡ room.settings)
unfolding begin_turn speaks
begun turns wire_format room h = ground (arith, same_format_self wire_format)

-- The turns that the request and the next history start from.
abbrev pub known_turns : RoomState → List (List Value) → List (List Value)
known_turns room kept = elim room.settings.mode [ chat ↦ kept | message ↦ [] ]

continued_known :
    (w : WireFormat) (start room : RoomState) (kept : List (List Value))
    → speaks start.wire_format w ≡ true
    → start.settings.mode ≡ room.settings.mode
    → continued w start kept ≡ known_turns room kept
continued_known w start room kept same_wire mode = rw (same_wire, mode) refl

history_known :
    (start room : RoomState) (kept : List (List Value))
    → Holds kept start
    → start.settings.mode ≡ room.settings.mode
    → history_of_mode start.settings.mode start.history ≡ concat (known_turns room kept)
unfolding history_of_mode
history_known start room kept holds mode = rw (mode, holds.items) (ground arith)

next_history :
    (config : ModelConfig) (input : List ContentPart) (after room : RoomState)
    → after.settings ≡ room.settings
    → after.wire_format ≡ some config.wire_format
    → (prepare_chat_request config input after).0.request.history
      ≡ history_of_mode room.settings.mode after.history
unfolding prepare_chat_request chat_request_from_room begin_turn speaks
next_history config input after room settings spoken =
    rw (spoken, same_format_self config.wire_format, settings) refl

-- The request of a turn in a room that holds some turns: it carries the items of all of them when
-- the mode is chat and the wire format is still the same, and no history otherwise. When the
-- provider has answered, the commit of its turn is accepted without a panic. Of those turns with the
-- answer behind them (in message mode, of the answer alone) the room then holds the newest that fit
-- the limits, and as many as fit: the first `k` are gone, the rest fits, and with one removed turn
-- less it would not. In chat mode the next request for that wire format carries what the room holds.
pub prepare_chat_request-exchange :
    (turns : List (List Value)) (items : List Value) (config : ModelConfig)
    (input next_input : List ContentPart) (room : RoomState)
    → Holds turns room
    → let (prepared, begun_room) = prepare_chat_request config input room in
      let before = known_turns room (kept_turns config.wire_format room turns) in
      (k : ℕ) × (after : RoomState) × (prepared.request.history ≡ concat before)
      × (append_turn_if_generation prepared.generation config.wire_format items begun_room
          ≡ some (true, after))
      × Holds (drop k (before ++ items ∷ [])) after
      × Fits (drop k (before ++ items ∷ []))
      × ((k ≡ 0) ⊎ (¬ Fits (drop (k - 1) (before ++ items ∷ []))))
      × ((prepare_chat_request config next_input after).0.request.history
          ≡ history_of_mode room.settings.mode (concat (drop k (before ++ items ∷ []))))
unfolding prepare_chat_request chat_request_from_room append_turn_if_generation
prepare_chat_request-exchange turns items config input next_input room h =
    let w : WireFormat = config.wire_format in
    let kept : List (List Value) = kept_turns w room turns in
    let start : RoomState = (begin_turn w room).1 in
    let (holds, same_wire, settings) = begun turns w room h in
    let (k, after, appended, held, fits, least, same, spoken, _) =
      append_turn-Holds kept items w start holds in
    let mode : start.settings.mode ≡ room.settings.mode =
      ap (λ (r : RoomSettings). r.mode) settings in
    let known = continued_known w start room kept same_wire mode in
    let holds_known : Holds (drop k (known_turns room kept ++ items ∷ [])) after =
      subst (λ b. Holds (drop k (b ++ items ∷ [])) after) known held in
    (
      k,
      after,
      history_known start room kept holds mode,
      rw (eq_refl start.generation, appended) (unfold committed in refl),
      holds_known,
      subst (λ b. Fits (drop k (b ++ items ∷ []))) known fits,
      subst (λ b. (k ≡ 0) ⊎ (¬ Fits (drop (k - 1) (b ++ items ∷ [])))) known least,
      next_history config next_input after room (same ∙ settings) spoken
          ∙ ap (history_of_mode room.settings.mode) holds_known.items,
    )

pub model_config-prepare :
    (config : ModelConfig) (input : List ContentPart) (room : RoomState)
    → (prepare_chat_request config input room).0.model_config ≡ config
unfolding prepare_chat_request
model_config-prepare config input room = refl
