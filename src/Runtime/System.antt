-- ===== src/Runtime/System.antt =====
-- src/runtime.rs, the poll loop and the chat workers: what happens to an update, and to a message in
-- a worker's queue.
pub mod Restart
mod Examples
use tellm.Base.{
  ◌⊎◌, inl, inr, ℕ, ◌+◌, Bool, true, false, not, ◌&&◌, ◌||◌, Option, none, some, List, [], ◌∷◌,
  ◌++◌, if◌then◌else◌, Text, codes, I64,
}
use tellm.Base.IdMap
use tellm.Base.IdMap.{map_option}
use tellm.Base.IdSet
use tellm.Core.{ChatRequest, ChatResponse, ContentPart}
use tellm.Config.{ModelConfig}
use tellm.Rooms.Table.{reset_all_history}
use tellm.Access.{AccessTime, ChatAccess, allowed, unknown, check_chat, arm_room}
use tellm.Commands.{CommandAction, pair_code}
use tellm.Telegram.{TelegramError}
use tellm.Telegram.Message.{IncomingMessage, User}
use tellm.Turn.Input.{
  InputError, Fallible, ok, failed, message_text, message_has_input, content_parts_from_message,
}
use tellm.Runtime.Replies.{unknown_chat_hint}
use tellm.Runtime.Workers.{
  ChatDispatcher, Workers, send_to_chat_worker, recv, worker_ends, Dispatch, queued, dropped,
  notice_sent, retain_dispatchers,
}
use tellm.Runtime.World.{World, Others, from, chat_is_allowed, worker_can_reply, send_command_reply}
use tellm.Runtime.Approval.{handle_pair_attempt, ChatMemberUpdated, handle_membership_change}
use tellm.Runtime.Routing.{Route, command_route, user_message_route, ignore_route, route_command}
use tellm.Runtime.Routing
use tellm.Runtime.Actions.{Services, handle_command}
use tellm.Runtime.Messages.{Ending, returned, panicked, finished, handle_model_message}

-- The code that is not modelled, and the libraries: file downloads, base64, UTF-8, the texts of input
-- errors, and the providers.
pub record Externals : Type 0 where
  pub get_file_bytes : Text → ℕ → TelegramError ⊎ List ℕ
  pub base64 : List ℕ → Text
  pub base64_decode : Text → Text ⊎ List ℕ
  pub from_utf8 : List ℕ → Option Text
  pub error_text : InputError → Text
  pub dispatch_provider : ModelConfig → ChatRequest → Text ⊎ ChatResponse

input_of : Externals → Fallible (List ContentPart) → Text ⊎ List ContentPart
input_of ext (ok parts) = inr parts
input_of ext (failed error) = inl (ext.error_text error)

-- A message that is not a command is input for the model, if there is any.
model_message : Others → Externals → I64 → ℕ → IncomingMessage → World → Ending × World
unfolding input_of
model_message others ext chat_id worker_id message w =
    if message_has_input message
    then handle_model_message ext.base64_decode others chat_id worker_id ext.dispatch_provider
        (input_of ext
          (content_parts_from_message ext.get_file_bytes ext.base64 ext.from_utf8 message))
        w
    else (returned none, w)

routed :
    Others
    → Externals
    → Services
    → I64
    → ℕ
    → IncomingMessage
    → (Option Text × Route) × World
    → Ending × World
unfolding model_message
routed others ext env chat_id worker_id message ((some error, route), w) =
    (returned (some error), w)
routed others ext env chat_id worker_id message ((none, command_route action), w) =
    finished (handle_command others env chat_id action w)
routed others ext env chat_id worker_id message ((none, user_message_route), w) =
    model_message others ext chat_id worker_id message w
routed others ext env chat_id worker_id message ((none, ignore_route), w) = (returned none, w)
routed others ext env chat_id worker_id message ((none, Routing.panicked), w) = (panicked, w)

sender : Option User → Option I64
sender none = none
sender (some user) = some user.id

by_text :
    Others
    → Externals
    → Services
    → Option Text
    → I64
    → ℕ
    → IncomingMessage
    → Option Text
    → World
    → Ending × World
unfolding routed model_message sender
by_text others ext env bot_username chat_id worker_id message none w =
    model_message others ext chat_id worker_id message w
by_text others ext env bot_username chat_id worker_id message (some text) w =
    routed (from 3 others) ext env chat_id worker_id message
      (route_command others env.now bot_username chat_id text message.date (sender message.from) w)

unfoldable pub handle_allowed_message :
    Others → Externals → Services → Option Text → I64 → ℕ → IncomingMessage → World → Ending × World
unfolding by_text
handle_allowed_message others ext env bot_username chat_id worker_id message w =
    by_text others ext env bot_username chat_id worker_id message (message_text message) w

-- What the worker does with the handler's result.
worker_ended : I64 → ℕ → World → World
worker_ended chat_id worker_id w = record w { workers = worker_ends chat_id worker_id w.workers }

handled : Others → I64 → ℕ → Ending × World → World
unfolding worker_ended
handled others chat_id worker_id (panicked, w) = worker_ended chat_id worker_id w
handled others chat_id worker_id (returned none, w) = w
handled others chat_id worker_id (returned (some error), w) =
    let w' = others 0 w in
    if worker_can_reply chat_id worker_id w'
    then (send_command_reply chat_id (codes "tellm error: " ++ error) w').1
    else w'

taken :
    Others
    → Externals
    → Services
    → Option Text
    → I64
    → ℕ
    → Option (IncomingMessage × ChatDispatcher)
    → World
    → World
unfolding handled
taken others ext env bot_username chat_id worker_id none w = w
taken others ext env bot_username chat_id worker_id (some (message, d)) w =
    let dispatchers = IdMap.insert chat_id d w.workers.dispatchers in
    let workers : Workers = record w.workers { dispatchers = dispatchers } in
    handled others chat_id worker_id (
      handle_allowed_message others ext env bot_username chat_id worker_id message
        (record w { workers = workers }))

-- One round of a chat's worker: it ends if it was aborted or cancelled, or if its chat was denied;
-- otherwise it takes the oldest message of its queue, if there is one.
worker_of :
    Others → Externals → Services → Option Text → I64 → Option ChatDispatcher → World → World
unfolding worker_ended taken
worker_of others ext env bot_username chat_id none w = w
worker_of others ext env bot_username chat_id (some d) w =
    if IdSet.contains d.worker_id w.workers.aborted || not (worker_can_reply chat_id d.worker_id w)
    then worker_ended chat_id d.worker_id w
    else taken others ext env bot_username chat_id d.worker_id (recv d) w

unfoldable pub worker_round : Others → Externals → Services → Option Text → I64 → World → World
unfolding worker_of
worker_round others ext env bot_username chat_id w =
    worker_of others ext env bot_username chat_id (IdMap.get chat_id w.workers.dispatchers) w

-- The queue-full notice, whose task runs to its end here.
notify_full : I64 → Dispatch × Workers → World → World
notify_full chat_id (queued, workers) w = record w { workers = workers }
notify_full chat_id (dropped false, workers) w = record w { workers = workers }
notify_full chat_id (dropped true, workers) w =
    (send_command_reply chat_id
      (codes
        "Too many queued messages in this chat; this one was dropped. Resend it after the current reply.")
      (record w { workers = notice_sent chat_id workers })).1

message_pair_code : Option Text → Option Text → Option Text
message_pair_code none bot_username = none
message_pair_code (some text) bot_username = pair_code text bot_username

-- A message of a chat that is not allowed, with the code that it submits.
unknown_chat : Others → AccessTime → IncomingMessage → Bool → Option Text → World → World
unfolding sender
unknown_chat others now message send_hint (some code) w =
    (handle_pair_attempt others now message.chat.id code (sender message.from) w).1
unknown_chat others now message true none w =
    (send_command_reply message.chat.id (unknown_chat_hint message.chat.id) w).1
unknown_chat others now message false none w = w

checked : Others → AccessTime → Option Text → IncomingMessage → ChatAccess → World → World
unfolding notify_full unknown_chat message_pair_code
checked others now bot_username message allowed w =
    notify_full message.chat.id (send_to_chat_worker message.chat.id message w.workers) w
checked others now bot_username message (unknown send_hint) w =
    let w0 = others 0 w in
    unknown_chat (from 1 others) now message send_hint
      (message_pair_code (message_text message) bot_username)
      (record w0 { access = (arm_room message.chat.id now w0.access).1 })

unfoldable pub handle_update : Others → AccessTime → Option Text → IncomingMessage → World → World
unfolding checked
handle_update others now bot_username message w =
    let w0 = others 0 w in
    let (access, control) = check_chat message.chat.id w0.access in
    checked (from 1 others) now bot_username message access (record w0 { access = control })

-- The timeout of a worker that waits at an empty queue: its task ends.
idle : I64 → ℕ → Option (IncomingMessage × ChatDispatcher) → World → World
unfolding worker_ended
idle chat_id worker_id (some taken_message) w = w
idle chat_id worker_id none w = worker_ended chat_id worker_id w

idle_of : I64 → Option ChatDispatcher → World → World
unfolding idle
idle_of chat_id none w = w
idle_of chat_id (some d) w = idle chat_id d.worker_id (recv d) w

-- The end of a round of the poll loop, when the tasks of the `finished` workers have ended.
end_round : IdSet.IdSet → World → World
end_round finished w = record w { workers = retain_dispatchers finished w.workers }

-- What can happen to the running program, one thing behind the other: an update, a round of a chat's
-- worker or its timeout, `reset` at the terminal, or the end of a round of the poll loop.
pub data Event : Type 0 where
  message_update : AccessTime → IncomingMessage → Event
  membership_update : AccessTime → ChatMemberUpdated → Event
  edited_update : Event
  worker_event : Services → I64 → Event
  worker_timeout : I64 → Event
  terminal_reset : Event
  round_end : IdSet.IdSet → Event

unfoldable pub happen : Others → Externals → Option Text → Event → World → World
unfolding idle_of end_round
happen others ext bot_username (message_update now message) w =
    handle_update others now bot_username message w
happen others ext bot_username (membership_update now membership) w =
    handle_membership_change others now membership w
happen others ext bot_username edited_update w = w
happen others ext bot_username (worker_event env chat_id) w =
    worker_round others ext env bot_username chat_id w
happen others ext bot_username (worker_timeout chat_id) w =
    idle_of chat_id (IdMap.get chat_id w.workers.dispatchers) w
happen others ext bot_username terminal_reset w = record w { rooms = reset_all_history w.rooms }
happen others ext bot_username (round_end finished) w = end_round finished w

unfoldable pub run : Externals → Option Text → List Event → World → World
unfolding happen
run ext bot_username [] w = w
run ext bot_username (event ∷ events) w =
    run ext bot_username events (happen (λ i w. w) ext bot_username event w)
