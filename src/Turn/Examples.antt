-- ===== src/Turn/Examples.antt =====
-- The first two turns of a room.
use tellm.Base.{
  ◌≡◌, ◌-◌, ◌⊎◌, refl, false, none, true, List, [], ◌∷◌, ◌++◌, drop, concat, codes, some, ℕ,
}
use tellm.Core.{Value, string, ContentPart, text, medium}
use tellm.Config.{ModelConfig, gemini}
use tellm.Rooms.{RoomState, new_room, default_settings, append_turn_if_generation}
use tellm.Rooms.History.{Holds, Fits}
use tellm.Turn.{prepare_chat_request, history_of_mode}
use tellm.Turn.Exchange.{known_turns, kept_turns, prepare_chat_request-exchange}

abbrev config : ModelConfig
config = record {
  wire_format = gemini;
  model_name = codes "g";
  base_url = none;
  allow_insecure_http = false;
  api_key_secret = some (codes "GEMINI_KEY");
  telegram_chat_ids = [];
  thinking = medium;
}

abbrev room : RoomState
room = new_room default_settings

abbrev items : List Value
items = string (codes "hello") ∷ string (codes "hi") ∷ []

abbrev question : List ContentPart
question = text (codes "hello") ∷ []

exchange_example :
    let (prepared, begun_room) = prepare_chat_request config question room in
    let before = known_turns room (kept_turns gemini room []) in
    (k : ℕ) × (after : RoomState) × (prepared.request.history ≡ concat before)
    × (append_turn_if_generation prepared.generation gemini items begun_room ≡ some (true, after))
    × Holds (drop k (before ++ items ∷ [])) after
    × Fits (drop k (before ++ items ∷ []))
    × ((k ≡ 0) ⊎ (¬ Fits (drop (k - 1) (before ++ items ∷ []))))
    × ((prepare_chat_request config question after).0.request.history
        ≡ history_of_mode room.settings.mode (concat (drop k (before ++ items ∷ []))))
exchange_example =
    prepare_chat_request-exchange [] items config question question room
      (unfold new_room in record { items = refl; sizes = refl })
