-- ===== src/Runtime/Messages/Examples.antt =====
-- The theorems on turns, at small inputs.
use tellm.Base.{
  ◌≡◌, ◌-◌, ◌∙◌, ◌⊎◌, inl, inr, refl, ℕ, Bool, true, false, Option, none, some, List, [], ◌∷◌, ◌++◌,
  Text, codes, drop, concat, if◌then◌else◌,
}
use tellm.Base.IdSet
use tellm.Core.{string, ContentPart, text, ChatRequest, ChatResponse}
use tellm.Config.{ModelConfig}
use tellm.Access.Startup.{new_with_generator-from_config}
use tellm.Rooms.{RoomState, new_room, default_settings}
use tellm.Rooms.History.{Holds, Fits}
use tellm.Rooms.Table
use tellm.Turn.{PreparedChatRequest, prepare_chat_request}
use tellm.Turn.Exchange.{known_turns, kept_turns}
use tellm.Runtime.ConfigEdits.{get_model, selected_model_key, pinned_model_key, pinned_model_key_of}
use tellm.Runtime.World.{World, alone, worker_can_reply, chat_is_allowed}
use tellm.Runtime.Samples.{sample_world, sample_model, sample_config, sample_generator}
use tellm.Runtime.Messages.{returned, finished, after_call, send_response, handle_model_message}
use tellm.Runtime.Messages.Currency.{after_call-IsStale}
use tellm.Runtime.Messages.Turns.{room_of, handle_model_message-exchange}

abbrev question : ContentPart
question = text (codes "hello")

abbrev answer : ChatResponse
answer = record {
  text = codes "hi";
  images = [];
  turn_items = string (codes "hello") ∷ string (codes "hi") ∷ [];
}

abbrev dispatch : ModelConfig → ChatRequest → Text ⊎ ChatResponse
dispatch model request = inr answer

abbrev decode : Text → Text ⊎ List ℕ
decode t = inr t

can_reply : worker_can_reply 5 1 sample_world ≡ true
unfolding worker_can_reply chat_is_allowed IdSet.contains
can_reply = rw (new_with_generator-from_config sample_config sample_generator 5 9).0 refl

found :
    get_model (selected_model_key sample_config (room_of 5 sample_world) 5) sample_config.models
    ≡ some sample_model
unfolding get_model selected_model_key pinned_model_key pinned_model_key_of IdSet.contains
    Table.get_or_default new_room tellm.Base.text_eq tellm.Base.IdMap.get
found = refl

handle_model_message-exchange_example :
    let before =
      known_turns
        (room_of 5 sample_world)
        (kept_turns sample_model.wire_format (room_of 5 sample_world) []) in
    ((prepare_chat_request sample_model (question ∷ []) (room_of 5 sample_world)).0.request.history
      ≡ concat before)
    × ((n : ℕ) × (after : RoomState) × (w' : World) × (handle_model_message decode alone 5 1
            dispatch
            (inr (question ∷ []))
            sample_world
          ≡ finished (send_response decode 5 answer w'))
        × (Table.get 5 w'.rooms ≡ some after)
        × Holds (drop n (before ++ answer.turn_items ∷ [])) after
        × Fits (drop n (before ++ answer.turn_items ∷ []))
        × ((n ≡ 0) ⊎ (¬ Fits (drop (n - 1) (before ++ answer.turn_items ∷ [])))))
handle_model_message-exchange_example =
    handle_model_message-exchange decode 5 1 dispatch question [] sample_model sample_world answer
      []
      (unfold new_room Table.get_or_default tellm.Base.IdMap.get in
        record { items = refl; sizes = refl })
      can_reply found refl

-- The room of the answer was reset since the request.
abbrev reset_world : World
reset_world = record sample_world {
  rooms = record {
    rooms =
        (
          5,
          record {
            settings = default_settings;
            wire_format = none;
            history = [];
            history_turns = [];
            generation = 3;
          },
        )
        ∷ [];
  };
}

abbrev asked_before : PreparedChatRequest
asked_before = record {
  model_config = sample_model;
  request = record {
    model = codes "claude";
    system = none;
    history = [];
    input = question ∷ [];
    thinking = sample_model.thinking;
    web_search = false;
    image_generation = false;
  };
  rollback = none;
  generation = 2;
  reset_notice = none;
}

after_call-IsStale_example :
    (after_call decode alone 5 1 asked_before (inl (codes "overloaded")) reset_world
      ≡ (returned none, reset_world))
    × (after_call decode alone 5 1 asked_before (inr answer) reset_world
        ≡ (returned none, if worker_can_reply 5 1 reset_world then reset_world else reset_world))
after_call-IsStale_example =
    after_call-IsStale decode alone 5 1 asked_before answer (codes "overloaded") reset_world
      (unfold Table.get tellm.Base.IdMap.get in refl)
