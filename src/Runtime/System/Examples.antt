-- ===== src/Runtime/System/Examples.antt =====
-- Runs of the program: a pairing, a group that an owner adds the bot to, and a worker's round.
use tellm.Base.{◌≡◌, refl, inl, inr, true, none, some, List, [], ◌∷◌, codes, I64}
use tellm.Base.IdSet
use tellm.Config.{Config}
use tellm.Access.{is_chat_allowed, new_with_generator, from_config}
use tellm.Ollama.{unloaded_answer}
use tellm.Runtime.Samples.{sample_world, sample_generator, sample_message}
use tellm.Runtime.Replies.Presets.{os_keychain}
use tellm.Runtime.Prompt.{stored_in}
use tellm.Runtime.Actions.{Services}
use tellm.Runtime.System.{
  Externals, Event, message_update, membership_update, worker_event, worker_timeout, terminal_reset,
  round_end, run,
}
use tellm.Runtime.System.Restart.{run-restart}

abbrev externals : Externals
externals = record {
  get_file_bytes = λ id size. inr [];
  base64 = λ bytes. bytes;
  base64_decode = λ t. inr t;
  from_utf8 = λ bytes. some bytes;
  error_text = λ e. codes "no input";
  dispatch_provider = λ model request. inl (codes "overloaded");
}

abbrev services : Services
services = record {
  now = 1010;
  secrets = record {
    has_secret = λ name. true;
    set_nonempty = λ name value. stored_in os_keychain;
    terminal = [];
  };
  loaded_models = [];
  unload_answer = λ m. unloaded_answer;
}

abbrev events : List Event
events =
    message_update 1000 (sample_message 7 (codes "/pair 123456"))
    ∷ membership_update 1001
        (record { chat_id = 8; from_user_id = some 9; new_status = codes "member" })
    ∷ message_update 1002 (sample_message 5 (codes "/deny 7"))
    ∷ worker_event services 5
    ∷ worker_timeout 5
    ∷ round_end []
    ∷ terminal_reset
    ∷ []

run-restart_example :
    (config : Config) × ((run externals none events sample_world).writer.config_file ≡ some config)
    × ((j : I64)
        → (is_chat_allowed j (new_with_generator (from_config config) sample_generator)
            ≡ is_chat_allowed j (run externals none events sample_world).access)
          × (IdSet.contains j
                (new_with_generator (from_config config) sample_generator).owner_user_ids
              ≡ IdSet.contains j (run externals none events sample_world).access.owner_user_ids))
run-restart_example =
    run-restart externals none events sample_world sample_generator sample_generator refl refl
