-- ===== src/Runtime/Workers/Examples.antt =====
-- Two messages to a chat, and the denial of it.
use tellm.Base.{◌≡◌, ◌≤◌, refl, true, false, ◌||◌, some, [], ◌∷◌, length, codes}
use tellm.Base.IdMap
use tellm.Base.IdSet
use tellm.Telegram.Message.{IncomingMessage}
use tellm.Runtime.Samples.{sample_world, sample_message}
use tellm.Runtime.Workers.{
  ChatDispatcher, Workers, send_to_chat_worker, try_send, spawn_chat_worker, cancel_chat_worker,
}
use tellm.Runtime.Workers.Reachable.{Reachable, start, later, dispatches, cancel_chat_worker-finds}

abbrev first : IncomingMessage
first = sample_message 5 (codes "hello")

abbrev second : IncomingMessage
second = sample_message 5 (codes "are you there?")

abbrev one_queued : Workers
one_queued = (send_to_chat_worker 5 first sample_world.workers).1

abbrev both_queued : Workers
both_queued = (send_to_chat_worker 5 second one_queued).1

reached : Reachable both_queued
reached =
    later one_queued both_queued
      (later sample_world.workers one_queued (start sample_world.workers refl)
        (dispatches 5 first sample_world.workers))
      (dispatches 5 second one_queued)

abbrev waiting : ChatDispatcher
waiting = record { worker_id = 1; queue = first ∷ second ∷ []; closed = false }

found : IdMap.get 5 both_queued.dispatchers ≡ some waiting
unfolding send_to_chat_worker try_send spawn_chat_worker IdMap.get IdMap.insert
found = refl

cancel_chat_worker-finds_example :
    (length waiting.queue ≤ 32)
    × (IdSet.contains 1 (cancel_chat_worker 5 true both_queued).cancelled ≡ true)
    × (IdSet.contains 1 (cancel_chat_worker 5 true both_queued).aborted
        ≡ (true || IdSet.contains 1 both_queued.aborted))
cancel_chat_worker-finds_example =
    cancel_chat_worker-finds both_queued 5 waiting true reached found refl
