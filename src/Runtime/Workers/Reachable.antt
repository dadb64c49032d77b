-- ===== src/Runtime/Workers/Reachable.antt =====
-- The workers as a step relation of the program, and what holds in every state that it reaches.
use tellm.Base.{
  ℕ, ◌≤◌, ◌≡◌, ◌∙◌, ap, sym, refl, inl, inr, Bool, true, false, ◌||◌, Option, none, some, [], ◌∷◌,
  length, arith, ◌==◌, ==_iff, eq_refl, Bool-cases, Option-cases, I64,
}
use tellm.Base.IdMap
use tellm.Base.IdMap.{IdMap, get-insert}
use tellm.Base.IdSet
use tellm.Base.IdSet.{IdSet, contains-insert}
use tellm.Telegram.Message.{IncomingMessage}
use tellm.Runtime.Workers.{
  ChatDispatcher, Workers, is_registered, remove_worker_registration, cancel, cancel_chat_worker,
  reactivate_chat_worker, send_to_chat_worker, notice_sent, recv, with_dispatcher, close_if,
  worker_ends, keeps, retain_from, retain_dispatchers,
}
use tellm.Runtime.Workers.Registry.{
  AreDistinct, IsTracked, with_dispatcher-IsTracked, send-IsTracked, take-IsTracked,
  cancelled-IsTracked, reactivated-IsTracked, remove_registration_other, remove_registration_own,
}

registered_other :
    (o : Option ℕ) (own id : ℕ) → o ≡ some own → (own == id) ≡ false → is_registered o id ≡ false
unfolding is_registered
registered_other o own id h other = rw h other

same_dispatchers :
    (k : I64) (id : ℕ) (p : Workers)
    → (remove_worker_registration k id p).dispatchers ≡ p.dispatchers
unfolding remove_worker_registration
same_dispatchers k id p = ground arith

-- A registration is taken back of a worker whose queue is closed.
unregister-IsTracked :
    (k : I64) (id : ℕ) (p : Workers)
    → IsTracked p
    → ((d : ChatDispatcher)
        → IdMap.get k p.dispatchers ≡ some d
        → d.closed ≡ false
        → (d.worker_id == id) ≡ false)
    → IsTracked (remove_worker_registration k id p)
unregister-IsTracked k id p v others = record {
  distinct = rw (same_dispatchers k id p) v.distinct;
  registers = λ j d found live.
      let here : IdMap.get j p.dispatchers ≡ some d =
        ap (λ m. IdMap.get j m) (sym (same_dispatchers k id p)) ∙ found in
      elim (Bool-cases (k == j)) [
        | inl same ↦
            let kj = (==_iff k j).0 same in
            rw (← kj) (
              remove_registration_own k id d.worker_id p (rw kj (v.registers j d here live))
                (others d (rw kj here) live))
        | inr other ↦ remove_registration_other k j id p other ∙ v.registers j d here live
      ];
  bounded =
      λ j d found. v.bounded j d (ap (λ m. IdMap.get j m) (sym (same_dispatchers k id p)) ∙ found);
}

closed_here :
    (k : I64) (e d : ChatDispatcher) (p : Workers)
    → IdMap.get k (with_dispatcher k e p).dispatchers ≡ some d
    → d ≡ e
unfolding with_dispatcher
closed_here k e d p h = ground (arith, get-insert k k e p.dispatchers, eq_refl k)

ends-IsTracked : (k : I64) (id : ℕ) (p : Workers) → IsTracked p → IsTracked (worker_ends k id p)
unfolding worker_ends close_if
ends-IsTracked k id p v = elim (Option-cases (IdMap.get k p.dispatchers)) [
  | inl nothing ↦ rw nothing (unregister-IsTracked k id p v (λ d found live. cc))
  | inr (d, here) ↦ elim (Bool-cases (d.worker_id == id)) [
    | inl own ↦
        let shut : ChatDispatcher = record d { closed = true; queue = [] } in
        rw (here, own)
          (unregister-IsTracked k id (with_dispatcher k shut p)
            (with_dispatcher-IsTracked k shut p v (λ live. cc) (omega arith))
            (λ e found live. absurd (cc (closed_here k shut e p found, live))))
    | inr other ↦
        rw (here, other)
          (unregister-IsTracked k id p v (λ e found live. ground (arith, here, found, other)))
  ]
]

absent-retain :
    (f : IdSet) (j : I64) (ds : IdMap ChatDispatcher) (p : Workers)
    → IdMap.get j ds ≡ none
    → (IdMap.get j (retain_from f ds p).0 ≡ none)
      × (IdMap.get j (retain_from f ds p).1.registered ≡ IdMap.get j p.registered)
unfolding retain_from IdMap.get
absent-retain f j [] p h = (refl, refl)
absent-retain f j ((k, d) ∷ ds) p h = elim (Bool-cases (keeps f d)) [
  | inl keep ↦
      let (gone, same) = absent-retain f j ds p (ground arith) in
      (ground (arith, gone, keep), rw keep same)
  | inr out ↦
      let p' = remove_worker_registration k d.worker_id p in
      let (gone, same) = absent-retain f j ds p' (ground arith) in
      (rw out gone, rw out (same ∙ remove_registration_other k j d.worker_id p (ground arith)))
]

distinct-retain :
    (f : IdSet) (ds : IdMap ChatDispatcher) (p : Workers)
    → AreDistinct ds
    → AreDistinct (retain_from f ds p).0
unfolding retain_from
distinct-retain f [] p h = tt
distinct-retain f ((k, d) ∷ ds) p (new, rest) = elim (Bool-cases (keeps f d)) [
  | inl keep ↦ rw keep ((absent-retain f k ds p new).0, distinct-retain f ds p rest)
  | inr out ↦ rw out (distinct-retain f ds (remove_worker_registration k d.worker_id p) rest)
]

kept-retain :
    (f : IdSet) (j : I64) (e : ChatDispatcher) (ds : IdMap ChatDispatcher) (p : Workers)
    → AreDistinct ds
    → IdMap.get j (retain_from f ds p).0 ≡ some e
    → (IdMap.get j ds ≡ some e)
      × (IdMap.get j (retain_from f ds p).1.registered ≡ IdMap.get j p.registered)
unfolding retain_from IdMap.get
kept-retain f j e [] p h found = cc
kept-retain f j e ((k, d) ∷ ds) p (new, rest) found = elim (Bool-cases (keeps f d)) [
  | inl keep ↦ elim (Bool-cases (k == j)) [
    | inl same ↦
        let (gone, unchanged) = absent-retain f j ds p (rw (← (==_iff k j).0 same) new) in
        (ground (arith, found, keep, same), rw keep unchanged)
    | inr other ↦
        let (here, unchanged) = kept-retain f j e ds p rest (ground (arith, found, keep, other)) in
        (ground (arith, here, other), rw keep unchanged)
  ]
  | inr out ↦
      let p' = remove_worker_registration k d.worker_id p in
      elim (Bool-cases (k == j)) [
        | inl same ↦
            let (gone, unchanged) = absent-retain f j ds p' (rw (← (==_iff k j).0 same) new) in
            absurd (ground (arith, found, out, gone))
        | inr other ↦
            let (here, unchanged) = kept-retain f j e ds p' rest (ground (arith, found, out)) in
            (
              ground (arith, here, other),
              rw out (unchanged ∙ remove_registration_other k j d.worker_id p other),
            )
      ]
]

retain-IsTracked :
    (finished : IdSet) (p : Workers) → IsTracked p → IsTracked (retain_dispatchers finished p)
unfolding retain_dispatchers
retain-IsTracked finished p v = record {
  distinct = distinct-retain finished p.dispatchers p v.distinct;
  registers = λ j d found live.
      let (here, unchanged) = kept-retain finished j d p.dispatchers p v.distinct found in
      unchanged ∙ v.registers j d here live;
  bounded =
      λ j d found. v.bounded j d (kept-retain finished j d p.dispatchers p v.distinct found).0;
}

-- What can happen to the workers: a message is dispatched, a worker takes a message or ends, a
-- denial cancels a worker or gives it back, a notice was sent, or the poll loop drops the
-- dispatchers of the workers that have ended.
pub data Step : Workers → Workers → Type 0 where
  dispatches : (k : I64) (m : IncomingMessage) (p : Workers) → Step p (send_to_chat_worker k m p).1
  takes :
      (k : I64) (m : IncomingMessage) (d d' : ChatDispatcher) (p : Workers)
      → IdMap.get k p.dispatchers ≡ some d
      → recv d ≡ some (m, d')
      → Step p (with_dispatcher k d' p)
  ends : (k : I64) (id : ℕ) (p : Workers) → Step p (worker_ends k id p)
  cancels : (k : I64) (abort : Bool) (p : Workers) → Step p (cancel_chat_worker k abort p)
  reactivates : (k : I64) (p : Workers) → Step p (reactivate_chat_worker k p)
  notified : (k : I64) (p : Workers) → Step p (notice_sent k p)
  drops : (finished : IdSet) (p : Workers) → Step p (retain_dispatchers finished p)

-- The states that are reached from the start, where there are no workers.
pub data Reachable : Workers → Type 0 where
  start : (p : Workers) → p.dispatchers ≡ [] → Reachable p
  later : (p p' : Workers) → Reachable p → Step p p' → Reachable p'

step-IsTracked : (p p' : Workers) → Step p p' → IsTracked p → IsTracked p'
unfolding cancel_chat_worker reactivate_chat_worker notice_sent
step-IsTracked _ _ (dispatches k m p) v = send-IsTracked k m p v
step-IsTracked _ _ (takes k m d d' p found h) v = take-IsTracked k m d d' p found h v
step-IsTracked _ _ (ends k id p) v = ends-IsTracked k id p v
step-IsTracked _ _ (cancels k abort p) v = cancelled-IsTracked k abort _ p v
step-IsTracked _ _ (reactivates k p) v = reactivated-IsTracked _ p v
step-IsTracked _ _ (notified k p) v = record {
  distinct = v.distinct;
  registers = v.registers;
  bounded = v.bounded;
}
step-IsTracked _ _ (drops finished p) v = retain-IsTracked finished p v

pub Reachable-IsTracked : (p : Workers) → Reachable p → IsTracked p
unfolding IdMap.get
Reachable-IsTracked _ (start p empty) = record {
  distinct = rw empty tt;
  registers = λ k d found live. cc (rw empty at found);
  bounded = λ k d found. absurd (cc (rw empty at found));
}
Reachable-IsTracked _ (later p p' r s) = step-IsTracked p p' s (Reachable-IsTracked p r)

-- In every state that the workers reach, a chat whose queue is open is within the queue's 32
-- messages, and a denial finds the worker of that very queue: it sets its flag, and aborts its task
-- if it was to do so.
pub cancel_chat_worker-finds :
    (p : Workers) (k : I64) (d : ChatDispatcher) (abort : Bool)
    → Reachable p
    → IdMap.get k p.dispatchers ≡ some d
    → d.closed ≡ false
    → (length d.queue ≤ 32)
      × (IdSet.contains d.worker_id (cancel_chat_worker k abort p).cancelled ≡ true)
      × (IdSet.contains d.worker_id (cancel_chat_worker k abort p).aborted
          ≡ (abort || IdSet.contains d.worker_id p.aborted))
unfolding cancel_chat_worker cancel
cancel_chat_worker-finds p k d abort r found live =
    let v = Reachable-IsTracked p r in
    let registered = v.registers k d found live in
    (
      v.bounded k d found,
      rw registered (rw (contains-insert, eq_refl) refl),
      rw registered (ground (arith, contains-insert d.worker_id d.worker_id p.aborted)),
    )
