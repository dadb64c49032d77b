-- ===== src/Runtime/Workers.antt =====
-- src/runtime.rs: the chat workers, their queues and their registry. The poll loop owns the
-- dispatchers, which hold the sending ends of the queues; a worker's task owns the receiving end,
-- and closes the queue when it ends.
pub mod Registry
pub mod Reachable
mod Examples
use tellm.Base.{
  ℕ, ◌+◌, Bool, true, false, not, ◌&&◌, Option, none, some, List, [], ◌∷◌, ◌++◌, length, ltb, ◌==◌,
  if◌then◌else◌, wrapping_add, I64,
}
use tellm.Base.IdMap
use tellm.Base.IdMap.{IdMap}
use tellm.Base.IdSet
use tellm.Base.IdSet.{IdSet}
use tellm.Telegram.Message.{IncomingMessage}

abbrev pub chat_queue_size : ℕ
chat_queue_size = 32

pub record ChatDispatcher : Type 0 where
  pub worker_id : ℕ
  pub queue : List IncomingMessage
  pub closed : Bool

-- `registered` is the registry, by chat; `cancelled` has the workers whose flag is set, `aborted`
-- those whose task was aborted, and `notices` the chats with a queue-full notice under way.
pub record Workers : Type 0 where
  pub dispatchers : IdMap ChatDispatcher
  pub registered : IdMap ℕ
  pub cancelled : IdSet
  pub aborted : IdSet
  pub next_worker_id : ℕ
  pub notices : IdSet

-- A new worker, its registration and its dispatcher.
unfoldable pub spawn_chat_worker : I64 → Workers → ChatDispatcher × Workers
spawn_chat_worker chat_id p = (
  record { worker_id = p.next_worker_id; queue = []; closed = false },
  record p {
    next_worker_id = wrapping_add p.next_worker_id 1;
    registered = IdMap.insert chat_id p.next_worker_id p.registered;
  },
)

is_registered : Option ℕ → ℕ → Bool
is_registered none worker_id = false
is_registered (some id) worker_id = id == worker_id

unfoldable pub remove_worker_registration : I64 → ℕ → Workers → Workers
unfolding is_registered
remove_worker_registration chat_id worker_id p =
    if is_registered (IdMap.get chat_id p.registered) worker_id
    then record p { registered = IdMap.remove chat_id p.registered }
    else p

pub cancel : Option ℕ → Bool → Workers → Workers
cancel none abort p = p
cancel (some worker_id) abort p = record p {
  cancelled = (IdSet.insert worker_id p.cancelled).1;
  aborted = if abort then (IdSet.insert worker_id p.aborted).1 else p.aborted;
}

unfoldable pub cancel_chat_worker : I64 → Bool → Workers → Workers
unfolding cancel
cancel_chat_worker chat_id abort p = cancel (IdMap.get chat_id p.registered) abort p

pub reactivate : Option ℕ → Workers → Workers
reactivate none p = p
reactivate (some worker_id) p = record p { cancelled = IdSet.remove worker_id p.cancelled }

unfoldable pub reactivate_chat_worker : I64 → Workers → Workers
unfolding reactivate
reactivate_chat_worker chat_id p = reactivate (IdMap.get chat_id p.registered) p

-- What became of a message: it waits in a queue, or it was dropped, with a notice to send or not.
pub data Dispatch : Type 0 where
  queued : Dispatch
  dropped : Bool → Dispatch

-- The outcomes of `try_send`.
pub data TrySend : Type 0 where
  accepted : ChatDispatcher → TrySend
  full closed_queue : TrySend

unfoldable pub try_send : IncomingMessage → ChatDispatcher → TrySend
try_send m d =
    if d.closed
    then closed_queue
    else if ltb (length d.queue) chat_queue_size
    then accepted (record d { queue = d.queue ++ m ∷ [] })
    else full

-- `dispatchers.entry(..).or_insert_with(..)`
entry : I64 → Option ChatDispatcher → Workers → ChatDispatcher × Workers
unfolding spawn_chat_worker
entry chat_id (some d) p = (d, p)
entry chat_id none p = spawn_chat_worker chat_id p

pub with_dispatcher : I64 → ChatDispatcher → Workers → Workers
with_dispatcher chat_id d p = record p { dispatchers = IdMap.insert chat_id d p.dispatchers }

-- The worker that was spawned for a message, with it; a refusal would only be logged.
respawned : TrySend → ChatDispatcher → ChatDispatcher
respawned (accepted d) fresh = d
respawned full fresh = fresh
respawned closed_queue fresh = fresh

sent : TrySend → I64 → IncomingMessage → Workers → Dispatch × Workers
unfolding with_dispatcher try_send spawn_chat_worker respawned
sent (accepted d) chat_id m p = (queued, with_dispatcher chat_id d p)
sent full chat_id m p =
    let (is_new, notices) = IdSet.insert chat_id p.notices in
    (dropped is_new, record p { notices = notices })
sent closed_queue chat_id m p =
    let (fresh, p') = spawn_chat_worker chat_id p in
    (queued, with_dispatcher chat_id (respawned (try_send m fresh) fresh) p')

unfoldable pub send_to_chat_worker : I64 → IncomingMessage → Workers → Dispatch × Workers
unfolding entry sent with_dispatcher try_send
send_to_chat_worker chat_id m p =
    let (d, p') = entry chat_id (IdMap.get chat_id p.dispatchers) p in
    sent (try_send m d) chat_id m (with_dispatcher chat_id d p')

-- `QueueFullNoticeGuard`: the notice was sent, or could not be.
unfoldable pub notice_sent : I64 → Workers → Workers
notice_sent chat_id p = record p { notices = IdSet.remove chat_id p.notices }

-- `receiver.recv()`: the oldest message of the queue.
unfoldable pub recv : ChatDispatcher → Option (IncomingMessage × ChatDispatcher)
recv d = elim d.queue [ [] ↦ none | m ∷ ms ↦ some (m, record d { queue = ms }) ]

close_if : ℕ → Option ChatDispatcher → I64 → Workers → Workers
unfolding with_dispatcher
close_if worker_id none chat_id p = p
close_if worker_id (some d) chat_id p =
    if d.worker_id == worker_id
    then with_dispatcher chat_id (record d { closed = true; queue = [] }) p
    else p

-- A worker's task ends: its queue is closed with what it still holds, and `WorkerRegistryGuard`
-- takes back the registration if it is still the worker's own.
unfoldable pub worker_ends : I64 → ℕ → Workers → Workers
unfolding close_if remove_worker_registration
worker_ends chat_id worker_id p =
    remove_worker_registration chat_id worker_id
      (close_if worker_id (IdMap.get chat_id p.dispatchers) chat_id p)

-- `stop_chat_workers`, for the list of the dispatchers.
unfoldable pub stop_chat_workers : IdMap ChatDispatcher → Workers → Workers
unfolding remove_worker_registration
stop_chat_workers [] p = p
stop_chat_workers ((chat_id, d) ∷ ds) p = stop_chat_workers ds (
    remove_worker_registration chat_id d.worker_id (record p {
      cancelled = (IdSet.insert d.worker_id p.cancelled).1;
      aborted = (IdSet.insert d.worker_id p.aborted).1;
    }))

-- `dispatchers.retain` at the end of a round of the poll loop: `finished` are the workers whose
-- tasks have ended.
keeps : IdSet → ChatDispatcher → Bool
keeps finished d = not (IdSet.contains d.worker_id finished) && not d.closed

retain_from : IdSet → IdMap ChatDispatcher → Workers → IdMap ChatDispatcher × Workers
unfolding keeps remove_worker_registration
retain_from finished [] p = ([], p)
retain_from finished ((chat_id, d) ∷ ds) p =
    let keep = keeps finished d in
    let p' = if keep then p else remove_worker_registration chat_id d.worker_id p in
    let (rest, p'') = retain_from finished ds p' in
    (if keep then (chat_id, d) ∷ rest else rest, p'')

unfoldable pub retain_dispatchers : IdSet → Workers → Workers
unfolding retain_from
retain_dispatchers finished p =
    let (kept, p') = retain_from finished p.dispatchers p in record p' { dispatchers = kept }
