-- ===== src/Lib.antt =====
-- A model of tellm, a Telegram bot that passes the messages of allowed chats to language models.
--
-- An update from Telegram reaches the access control first, which knows the allowed chats and the
-- owners and pairs new chats by a six-digit code. A message is then a command, which becomes an
-- action on the chat's room, or input for the room's model: the room gives the request its settings
-- and history, the provider's answer is committed to the history unless it was reset meanwhile, and
-- the text goes back to the chat in chunks. A writer thread keeps the settings of the rooms on disk.
--
-- Which file models which part (the paths are those of the repository):
--   Base         `str`, `char`, integers, `BTreeMap` and `BTreeSet`, as far as the code uses them
--   Access       src/access.rs: `AccessControl` and its methods; Access/Code has the pairing codes
--   Core         the types of crates/tellm-core/src/lib.rs
--   Config       the types of crates/tellm-config/src/lib.rs; Config/Validate has `validate`
--   Rooms        src/rooms.rs: `RoomState`; Rooms/Table has `RoomStates`, Rooms/Table/File has
--                `load_settings` and `save_settings`
--   Persistence  src/persistence.rs: the writer thread, `mutate_room`, `remove_room`
--   Commands     src/commands.rs: `resolve` and the `route_` functions; Commands/Syntax has `parse`
--   Telegram     crates/tellm-telegram/src/lib.rs: `send_message`; Telegram/Chunks has `chunk_text`,
--                Telegram/Markdown has `markdown_to_html`; the Golden files run their test vectors
--   Turn         src/model_turn.rs: `prepare_chat_request`; Turn/Input has
--                `content_parts_from_message`
--   Updates      src/runtime.rs: `GetUpdatesLogState`
--   Runtime      src/runtime.rs. World has what `RuntimeHandles` shares, and the calls on it; Workers
--                the chat workers with their queues and registry; ConfigEdits the changes of the
--                configuration; Approval `handle_allow_chat`, `handle_deny_chat`,
--                `handle_pair_attempt` and `handle_membership_change`; Routing `route_command`;
--                Prompt the terminal prompt for a secret; Actions `handle_command`; Messages
--                `handle_model_message`; System `handle_update` and the rounds of the workers;
--                Replies the texts, with the presets of src/wizard.rs
--   Ollama       src/ollama.rs: `local_addr`, `remember_model`, `unload_models`; Ollama/Responses has
--                `unload_model` and `unload_response_outcome`
--
-- A method that changes its object takes the state as its last argument and returns the new state
-- beside its result. An `i64` id is its 64-bit pattern, a `u64` a number whose wrap-around or
-- saturation is written out, a text the list of its code points, a map keyed by ids a list of
-- entries. A panic is `none`, or `panicked` in a handler. Times are seconds.
--
-- A handler of the runtime takes what other tasks do at each of its pauses (`Others`, by the number
-- of the pause), and returns its error text, or `none`, beside the world. While it holds the lock of
-- the configuration the others leave the configuration alone (`holding_config`). `Runtime.System.run`
-- lets events happen one behind the other, each handled to its end.
--
-- Fuel: the loop of `chunk_text` and the passes of `markdown_to_html` take the length of the text, or
-- one more; each of their rounds consumes a character at least. `replace_all` takes one more than the
-- length of the text that it reads. A decimal is printed with fuel above the number.
--
-- Parameters: the random generator of the pairing codes, the TOML library, the URL parser, the
-- outcomes of the file writes, what other tasks do at a pause, `str::to_lowercase`, base64 and UTF-8
-- coding, file downloads, Telegram's answers to requests (by their number), the providers, the secret
-- store and the input at the terminal, and the Ollama servers' answers.
--
-- Not modelled: the poll loop's `select!`, offset and log lines, and the abort of a task in the
-- middle of a handler; the request bodies of the providers; the Ollama process and its sockets;
-- the storage of secrets; the console and the wizard's prompts; files, sockets and threads.
pub mod Base
pub mod Access
pub mod Core
pub mod Config
pub mod Rooms
pub mod Persistence
pub mod Commands
pub mod Telegram
pub mod Updates
pub mod Ollama
pub mod Runtime
pub mod Turn
