-- ===== src/Access/Membership.antt =====
-- Allowing and denying chats, the hint to unknown chats, armed codes, and privileged commands.
use tellm.Base.{
  ℕ, ◌+◌, ◌≤◌, ◌<◌, ◌≡◌, ◌↔◌, refl, ◌∙◌, ap, true, false, not, Option, none, some, arith, I64, leb,
  ◌==◌, eq_refl, saturating_add, u64_max,
}
use tellm.Base.IdMap
use tellm.Base.IdMap.{get-insert, get-remove}
use tellm.Base.IdSet
use tellm.Base.IdSet.{contains-insert, contains-remove, new-insert, contains-cons}
use tellm.Access.Code.{normalize_pairing_code}
use tellm.Access.{
  AccessControl, AccessTime, RoomPairing, unknown, PrivilegedAccess, ensure_room_code, needs_issue,
  issue, current_code, arm_room, check_chat, deny_chat, is_chat_allowed, check_privileged,
  room_code, pairing_code_ttl,
}

insert_again :
    (k : I64) (s : IdSet.IdSet)
    → IdSet.insert k (IdSet.insert k s).1 ≡ (false, (IdSet.insert k s).1)
unfolding IdSet.insert
insert_again k s = ground (arith, contains-cons k s)

-- A denied chat has nothing left in the state: it is not allowed, has no armed code and no failure
-- entry, and its next message gets the hint again; the entries of another chat `j` stay.
pub deny_chat_lem :
    (chat_id j : I64) (a : AccessControl)
    → (chat_id == j) ≡ false
    → (is_chat_allowed chat_id (deny_chat chat_id a) ≡ false)
      × (room_code chat_id (deny_chat chat_id a) ≡ none)
      × (IdMap.get chat_id (deny_chat chat_id a).attempts ≡ none)
      × ((check_chat chat_id (deny_chat chat_id a)).0 ≡ unknown true)
      × (is_chat_allowed j (deny_chat chat_id a) ≡ is_chat_allowed j a)
      × (room_code j (deny_chat chat_id a) ≡ room_code j a)
      × (IdMap.get j (deny_chat chat_id a).attempts ≡ IdMap.get j a.attempts)
unfolding deny_chat is_chat_allowed room_code check_chat
deny_chat_lem chat_id j a other = (
  rw (contains-remove, eq_refl),
  rw (get-remove, eq_refl),
  rw (get-remove, eq_refl),
  ground (
    arith,
    contains-remove chat_id chat_id a.allowed_chat_ids,
    contains-remove chat_id chat_id a.hinted_unknown_chats,
    new-insert chat_id (IdSet.remove chat_id a.hinted_unknown_chats),
  ),
  rw (contains-remove, other),
  rw (get-remove, other),
  rw (get-remove, other),
)

-- A chat that is not allowed gets the hint on its first contact and on no later one, until it is
-- allowed or denied: a second check answers without the hint and changes nothing more.
pub check_chat_twice :
    (chat_id : I64) (a : AccessControl)
    → is_chat_allowed chat_id a ≡ false
    → ((check_chat chat_id a).0 ≡ unknown (not (IdSet.contains chat_id a.hinted_unknown_chats)))
      × (check_chat chat_id (check_chat chat_id a).1 ≡ (unknown false, (check_chat chat_id a).1))
unfolding check_chat is_chat_allowed
check_chat_twice chat_id a strange = (rw (strange, new-insert), rw (strange, strange) (rw hinted))
  where
    hinted :
        IdSet.insert chat_id (IdSet.insert chat_id a.hinted_unknown_chats).1
        ≡ (false, (IdSet.insert chat_id a.hinted_unknown_chats).1)
    hinted = insert_again chat_id a.hinted_unknown_chats

-- An issued code is in the map, until 600 seconds later.
pending-issue :
    (chat_id : I64) (now : AccessTime) (a : AccessControl)
    → IdMap.get chat_id (issue chat_id now a).pending
      ≡ some (record {
        code = normalize_pairing_code (a.code_generator a.generated);
        expires_at = saturating_add now pairing_code_ttl;
      })
unfolding issue
pending-issue chat_id now a = rw (get-insert, eq_refl)

arm_fresh :
    (chat_id : I64) (now : AccessTime) (a : AccessControl)
    → is_chat_allowed chat_id a ≡ false
    → needs_issue (IdMap.get chat_id a.pending) now ≡ true
    → arm_room chat_id now a ≡ (
      some (record {
        code = normalize_pairing_code (a.code_generator a.generated);
        newly_issued = true;
      }),
      issue chat_id now a,
    )
unfolding arm_room ensure_room_code
arm_fresh chat_id now a strange stale = rw (strange, stale) (rw pending-issue)

arm_valid :
    (chat_id : I64) (now : AccessTime) (a : AccessControl)
    → is_chat_allowed chat_id a ≡ false
    → needs_issue (IdMap.get chat_id a.pending) now ≡ false
    → arm_room chat_id now a ≡ (
      some (record { code = current_code (IdMap.get chat_id a.pending); newly_issued = false }),
      a,
    )
unfolding arm_room ensure_room_code
arm_valid chat_id now a strange valid = rw (strange, valid)

newly_issued_only :
    (chat_id : I64) (now : AccessTime) (a : AccessControl) (r : RoomPairing)
    → (arm_room chat_id now a).0 ≡ some r
    → r.newly_issued ≡ true
    → (is_chat_allowed chat_id a ≡ false) × (needs_issue (IdMap.get chat_id a.pending) now ≡ true)
unfolding arm_room ensure_room_code is_chat_allowed
newly_issued_only chat_id now a r issued fresh = ground arith

allowed-issue :
    (chat_id : I64) (now : AccessTime) (a : AccessControl)
    → is_chat_allowed chat_id (issue chat_id now a) ≡ is_chat_allowed chat_id a
unfolding issue is_chat_allowed
allowed-issue chat_id now a = refl

needs_issue-issue :
    (chat_id : I64) (now later : AccessTime) (a : AccessControl)
    → now + 600 ≤ u64_max
    → needs_issue (IdMap.get chat_id (issue chat_id now a).pending) later ≡ leb (now + 600) later
unfolding needs_issue
needs_issue-issue chat_id now later a fits = rw pending-issue (ground arith)

-- A code that is newly issued to a chat at `now` stays for ten minutes: arming the room at a time
-- `soon` before that returns the same code, not as new, and changes nothing; arming it at a time
-- `late` from then on returns the generator's next text, in normal form, as new.
pub arm_room_twice :
    (chat_id : I64) (now soon late : AccessTime) (a : AccessControl) (r : RoomPairing)
    → now + 600 ≤ u64_max
    → (arm_room chat_id now a).0 ≡ some r
    → r.newly_issued ≡ true
    → soon < now + 600
    → now + 600 ≤ late
    → (arm_room chat_id soon (arm_room chat_id now a).1
        ≡ (some (record { code = r.code; newly_issued = false }), (arm_room chat_id now a).1))
      × ((arm_room chat_id late (arm_room chat_id now a).1).0
          ≡ some (record {
            code = normalize_pairing_code (a.code_generator (a.generated + 1));
            newly_issued = true;
          }))
arm_room_twice chat_id now soon late a r fits issued fresh before after =
    let (strange, stale) = newly_issued_only chat_id now a r issued fresh in
    let first = arm_fresh chat_id now a strange stale in
    let a' = issue chat_id now a in
    let known : is_chat_allowed chat_id a' ≡ false = allowed-issue chat_id now a ∙ strange in
    let code : r.code ≡ normalize_pairing_code (a.code_generator a.generated) =
      ground (arith, first) in
    rw first (
      arm_valid chat_id soon a' known (needs_issue-issue chat_id now soon a fits ∙ ground arith)
          ∙ (unfold current_code in rw (pending-issue, code)),
      ap (λ (x : Option RoomPairing × AccessControl). x.0)
            (arm_fresh chat_id late a' known
              (needs_issue-issue chat_id now late a fits ∙ ground arith))
          ∙ (unfold issue in refl),
    )

-- A privileged command is let through exactly when the message names a sender, the sender is a
-- registered owner, and the message is at most 60 seconds old.
pub check_privileged-allowed_iff :
    (sender : Option I64) (sent now : ℕ) (a : AccessControl)
    → (check_privileged sender sent now a ≡ PrivilegedAccess.allowed) ↔ (
        (user_id : I64) × (sender ≡ some user_id)
        × (IdSet.contains user_id a.owner_user_ids ≡ true)
        × (now ≤ sent + 60))
unfolding check_privileged
check_privileged-allowed_iff none sent now a = (λ h. cc, λ h. cc (h.1))
check_privileged-allowed_iff (some user_id) sent now a =
    (λ h. (user_id, refl, ground arith, ground arith), λ (x, e, owner, fresh). ground arith)
