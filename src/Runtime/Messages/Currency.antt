-- ===== src/Runtime/Messages/Currency.antt =====
-- An answer that arrives too late.
use tellm.Base.{
  ◌≡◌, ◌⊎◌, inl, inr, refl, ap, ℕ, false, Option, none, some, List, [], ◌∷◌, Text, I64, arith, ◌==◌,
  ==_iff, if◌then◌else◌,
}
use tellm.Base.IdMap
use tellm.Core.{ChatResponse, Value}
use tellm.Config.{WireFormat, anthropic}
use tellm.Rooms.{RoomState, FailedTurnRollback}
use tellm.Rooms.Generation.{stale_lem}
use tellm.Rooms.Table
use tellm.Rooms.Table.{RoomStates}
use tellm.Turn.{PreparedChatRequest}
use tellm.Runtime.World.{World, Others, worker_can_reply}
use tellm.Runtime.Messages.{
  commit_room, put_back, committed_answer, restored_room, failed_answer, after_call, returned,
}

-- Writing back what is there changes nothing.
insert-same :
    (k : I64) (room : RoomState) (m : IdMap.IdMap RoomState)
    → IdMap.get k m ≡ some room
    → IdMap.insert k room m ≡ m
unfolding IdMap.get IdMap.insert
insert-same k room [] h = cc
insert-same k room ((j, r) ∷ m) h = ground (arith, insert-same k room m, ==_iff j k)

put_back-same :
    (k : I64) (o : Option RoomState) (w : World) → Table.get k w.rooms ≡ o → put_back k o w ≡ w
unfolding put_back Table.put Table.get
put_back-same k none w h = refl
put_back-same k (some room) w h =
    ap (λ m. record w { rooms = record { rooms = m } }) (insert-same k room w.rooms.rooms h)

-- The room is gone, or its history was reset since a generation.
abbrev pub IsStale : ℕ → Option RoomState → Type 0
IsStale generation none = Unit
IsStale generation (some room) = (room.generation == generation) ≡ false

commit_room-stale :
    (g : ℕ) (f : WireFormat) (items : List Value) (o : Option RoomState)
    → IsStale g o
    → commit_room g f items o ≡ some (false, o)
unfolding commit_room
commit_room-stale g f items none h = refl
commit_room-stale g f items (some room) h = ground (arith, (stale_lem g f items none room h).0)

restored_room-stale :
    (g : ℕ) (rollback : Option FailedTurnRollback) (o : Option RoomState)
    → IsStale g o
    → restored_room g rollback o ≡ (false, o)
unfolding restored_room
restored_room-stale g rollback none h = refl
restored_room-stale g rollback (some room) h =
    ground (arith, (stale_lem g anthropic [] rollback room h).1)

-- Whatever other tasks do at its pauses, an answer, good or bad, that finds the room gone or its
-- history reset since the request was made leaves no trace, in the rooms, at Telegram or anywhere
-- else. (A good answer whose worker may not reply does not even wait for the rooms.)
pub after_call-IsStale :
    (base64_decode : Text → Text ⊎ List ℕ) (others : Others) (k : I64) (worker_id : ℕ)
    (prepared : PreparedChatRequest) (response : ChatResponse) (error : Text) (w : World)
    → IsStale prepared.generation (Table.get k (others 0 w).rooms)
    → (after_call base64_decode others k worker_id prepared (inl error) w
        ≡ (returned none, others 0 w))
      × (after_call base64_decode others k worker_id prepared (inr response) w
          ≡ (returned none, if worker_can_reply k worker_id w then others 0 w else w))
unfolding after_call failed_answer committed_answer
after_call-IsStale base64_decode others k worker_id prepared response error w stale =
    let g = prepared.generation in
    let o = Table.get k (others 0 w).rooms in
    let kept = put_back-same k o (others 0 w) refl in
    (
      rw (restored_room-stale g prepared.rollback o stale) (rw kept refl),
      rw (commit_room-stale g prepared.model_config.wire_format response.turn_items o stale)
          (rw kept (ground arith)),
    )
