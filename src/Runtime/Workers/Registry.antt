-- ===== src/Runtime/Workers/Registry.antt =====
-- What the registry knows of the workers, whatever happens to them.
use tellm.Base.{
  ℕ, ◌≤◌, ◌≡◌, ◌∙◌, subst, refl, inl, inr, Bool, true, false, Option, none, some, [], ◌∷◌, length,
  length-append, arith, ◌==◌, ==_iff, eq_refl, Bool-cases, I64,
}
use tellm.Base.IdMap
use tellm.Base.IdMap.{IdMap, get-insert, get-remove}
use tellm.Telegram.Message.{IncomingMessage}
use tellm.Runtime.Workers.{
  chat_queue_size, ChatDispatcher, Workers, spawn_chat_worker, is_registered,
  remove_worker_registration, cancel, reactivate, TrySend, accepted, full, closed_queue, try_send,
  entry, with_dispatcher, respawned, sent, send_to_chat_worker, recv,
}

-- Each key stands once.
abbrev pub AreDistinct : IdMap ChatDispatcher → Type 0
AreDistinct [] = Unit
AreDistinct ((k, d) ∷ m) = (IdMap.get k m ≡ none) × AreDistinct m

insert-AreDistinct :
    (k : I64) (d : ChatDispatcher) (m : IdMap ChatDispatcher)
    → AreDistinct m
    → AreDistinct (IdMap.insert k d m)
unfolding IdMap.insert IdMap.get
insert-AreDistinct k d [] h = (refl, tt)
insert-AreDistinct k d ((j, e) ∷ m) (new, rest) = elim (Bool-cases (j == k)) [
  | inl same ↦ rw same (rw (← (==_iff j k).0 same) new, rest)
  | inr other ↦
      rw other
        (ground (arith, get-insert k j d m, ==_iff j k, ==_iff k j), insert-AreDistinct k d m rest)
]

-- Every open queue holds at most 32 messages, and its worker is the registered one of its chat.
pub record IsTracked (p : Workers) : Type 0 where
  pub distinct : AreDistinct p.dispatchers
  pub registers :
      (k : I64) (d : ChatDispatcher)
      → IdMap.get k p.dispatchers ≡ some d
      → d.closed ≡ false
      → IdMap.get k p.registered ≡ some d.worker_id
  pub bounded :
      (k : I64) (d : ChatDispatcher)
      → IdMap.get k p.dispatchers ≡ some d
      → length d.queue ≤ chat_queue_size

written :
    (k j : I64) (d e : ChatDispatcher) (m : IdMap ChatDispatcher)
    → IdMap.get j (IdMap.insert k d m) ≡ some e
    → (k == j) ≡ true
    → (k ≡ j) × (d ≡ e)
written k j d e m found same = ((==_iff k j).0 same, ground (arith, get-insert k j d m))

-- A dispatcher that is written for a chat whose worker it is.
pub with_dispatcher-IsTracked :
    (k : I64) (d : ChatDispatcher) (p : Workers)
    → IsTracked p
    → (d.closed ≡ false → IdMap.get k p.registered ≡ some d.worker_id)
    → length d.queue ≤ chat_queue_size
    → IsTracked (with_dispatcher k d p)
unfolding with_dispatcher
with_dispatcher-IsTracked k d p v own few = record {
  distinct = insert-AreDistinct k d p.dispatchers v.distinct;
  registers = λ j e found live. elim (Bool-cases (k == j)) [
    | inl same ↦
        let (kj, de) = written k j d e p.dispatchers found same in
        subst (λ x. IdMap.get x p.registered ≡ some e.worker_id) kj
          (subst (λ (x : ChatDispatcher). IdMap.get k p.registered ≡ some x.worker_id) de
            (own (rw de live)))
    | inr other ↦ v.registers j e (ground (arith, get-insert k j d p.dispatchers)) live
  ];
  bounded = λ j e found. elim (Bool-cases (k == j)) [
    | inl same ↦
        subst (λ (x : ChatDispatcher). length x.queue ≤ chat_queue_size)
          (written k j d e p.dispatchers found same).1 few
    | inr other ↦ v.bounded j e (ground (arith, get-insert k j d p.dispatchers))
  ];
}

pub remove_registration_other :
    (k j : I64) (id : ℕ) (p : Workers)
    → (k == j) ≡ false
    → IdMap.get j (remove_worker_registration k id p).registered ≡ IdMap.get j p.registered
unfolding remove_worker_registration
remove_registration_other k j id p h = ground (arith, get-remove k j p.registered)

pub remove_registration_own :
    (k : I64) (id own : ℕ) (p : Workers)
    → IdMap.get k p.registered ≡ some own
    → (own == id) ≡ false
    → IdMap.get k (remove_worker_registration k id p).registered ≡ some own
unfolding remove_worker_registration is_registered
remove_registration_own k id own p h other = ground arith

-- Registering a new worker for a chat that has no open one.
spawn-IsTracked :
    (k : I64) (p : Workers)
    → IsTracked p
    → ((d : ChatDispatcher) → IdMap.get k p.dispatchers ≡ some d → d.closed ≡ true)
    → IsTracked (spawn_chat_worker k p).1
unfolding spawn_chat_worker
spawn-IsTracked k p v closed = record {
  distinct = v.distinct;
  registers = λ j d found live. elim (Bool-cases (k == j)) [
    | inl same ↦ let kj = (==_iff k j).0 same in absurd (cc (closed d (rw kj found), live))
    | inr other ↦ rw (get-insert, other) (v.registers j d found live)
  ];
  bounded = v.bounded;
}

try_send_lem :
    (m : IncomingMessage) (d d' : ChatDispatcher)
    → try_send m d ≡ accepted d'
    → (length d'.queue ≤ chat_queue_size) × (d'.worker_id ≡ d.worker_id) × (d'.closed ≡ d.closed)
unfolding try_send
try_send_lem m d d' h = ground (arith, length-append d.queue (m ∷ []))

try_send_closed :
    (m : IncomingMessage) (d : ChatDispatcher) → try_send m d ≡ closed_queue → d.closed ≡ true
unfolding try_send
try_send_closed m d h = ground arith

pub cancelled-IsTracked :
    (k : I64) (abort : Bool) (o : Option ℕ) (p : Workers)
    → IsTracked p
    → IsTracked (cancel o abort p)
unfolding cancel
cancelled-IsTracked k abort none p v = v
cancelled-IsTracked k abort (some id) p v = record {
  distinct = v.distinct;
  registers = v.registers;
  bounded = v.bounded;
}

pub reactivated-IsTracked : (o : Option ℕ) (p : Workers) → IsTracked p → IsTracked (reactivate o p)
unfolding reactivate
reactivated-IsTracked none p v = v
reactivated-IsTracked (some id) p v = record {
  distinct = v.distinct;
  registers = v.registers;
  bounded = v.bounded;
}

respawned_lem :
    (m : IncomingMessage) (fresh : ChatDispatcher) (t : TrySend)
    → try_send m fresh ≡ t
    → length fresh.queue ≤ chat_queue_size
    → (length (respawned t fresh).queue ≤ chat_queue_size)
      × ((respawned t fresh).worker_id ≡ fresh.worker_id)
unfolding respawned
respawned_lem m fresh (accepted d) h few =
    let (bound, same, open_too) = try_send_lem m fresh d h in (bound, same)
respawned_lem m fresh full h few = (few, refl)
respawned_lem m fresh closed_queue h few = (few, refl)

-- A worker that is spawned and then gets its dispatcher, with the id and some queue.
fresh-IsTracked :
    (k : I64) (d : ChatDispatcher) (p : Workers)
    → IsTracked p
    → ((e : ChatDispatcher) → IdMap.get k p.dispatchers ≡ some e → e.closed ≡ true)
    → d.worker_id ≡ p.next_worker_id
    → length d.queue ≤ chat_queue_size
    → IsTracked (with_dispatcher k d (spawn_chat_worker k p).1)
fresh-IsTracked k d p v closed id few =
    with_dispatcher-IsTracked k d _ (spawn-IsTracked k p v closed)
      (λ live. unfold spawn_chat_worker in rw (get-insert, eq_refl, id) refl) few

sent-IsTracked :
    (t : TrySend) (k : I64) (m : IncomingMessage) (d : ChatDispatcher) (q : Workers)
    → try_send m d ≡ t
    → IdMap.get k q.dispatchers ≡ some d
    → IsTracked q
    → IsTracked (sent t k m q).1
unfolding sent
sent-IsTracked (accepted d') k m d q h found v =
    let (few, same, closed) = try_send_lem m d d' h in
    with_dispatcher-IsTracked k d' q v
      (λ live. rw same (v.registers k d found (rw (← closed) live))) few
sent-IsTracked full k m d q h found v = record {
  distinct = v.distinct;
  registers = v.registers;
  bounded = v.bounded;
}
sent-IsTracked closed_queue k m d q h found v =
    let fresh = (spawn_chat_worker k q).0 in
    let (few, same) =
      respawned_lem m fresh (try_send m fresh) refl (unfold spawn_chat_worker in omega arith) in
    fresh-IsTracked k (respawned (try_send m fresh) fresh) q v
      (λ e here. ground (arith, try_send_closed m d h)) (same ∙ (unfold spawn_chat_worker in refl))
      few

get-with_dispatcher :
    (k : I64) (d : ChatDispatcher) (p : Workers)
    → IdMap.get k (with_dispatcher k d p).dispatchers ≡ some d
unfolding with_dispatcher
get-with_dispatcher k d p = rw (get-insert, eq_refl) refl

entry-IsTracked :
    (k : I64) (o : Option ChatDispatcher) (p : Workers)
    → IdMap.get k p.dispatchers ≡ o
    → IsTracked p
    → IsTracked (with_dispatcher k (entry k o p).0 (entry k o p).1)
unfolding entry
entry-IsTracked k (some d) p found v =
    with_dispatcher-IsTracked k d p v (λ live. v.registers k d found live) (v.bounded k d found)
entry-IsTracked k none p found v =
    fresh-IsTracked k (spawn_chat_worker k p).0 p v (λ e here. cc)
      (unfold spawn_chat_worker in refl) (unfold spawn_chat_worker in omega arith)

pub send-IsTracked :
    (k : I64) (m : IncomingMessage) (p : Workers)
    → IsTracked p
    → IsTracked (send_to_chat_worker k m p).1
unfolding send_to_chat_worker
send-IsTracked k m p v =
    let (d, p') = entry k (IdMap.get k p.dispatchers) p in
    sent-IsTracked (try_send m d) k m d (with_dispatcher k d p') refl (get-with_dispatcher k d p')
      (entry-IsTracked k (IdMap.get k p.dispatchers) p refl v)

recv_lem :
    (m : IncomingMessage) (d d' : ChatDispatcher)
    → recv d ≡ some (m, d')
    → (d'.worker_id ≡ d.worker_id) × (d'.closed ≡ d.closed) × (length d'.queue ≤ length d.queue)
unfolding recv
recv_lem m d d' h = (ground arith, ground arith, ground arith)

pub take-IsTracked :
    (k : I64) (m : IncomingMessage) (d d' : ChatDispatcher) (p : Workers)
    → IdMap.get k p.dispatchers ≡ some d
    → recv d ≡ some (m, d')
    → IsTracked p
    → IsTracked (with_dispatcher k d' p)
take-IsTracked k m d d' p found h v =
    let (same, closed, fewer) = recv_lem m d d' h in
    let few = v.bounded k d found in
    with_dispatcher-IsTracked k d' p v
      (λ live. rw same (v.registers k d found (rw (← closed) live))) (omega (arith, few, fewer))
