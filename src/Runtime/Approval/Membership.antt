-- ===== src/Runtime/Approval/Membership.antt =====
-- The bot is added to a chat: run alone, the handler keeps the agreement.
use tellm.Base.{inl, inr, ◌∙◌, ap, false, codes, [], ◌∷◌, I64, is_one_of, Bool-cases, Option-cases}
use tellm.Base.IdSet
use tellm.Access.{AccessTime}
use tellm.Access.Live.{live-arm_room}
use tellm.Runtime.World.{World, alone}
use tellm.Runtime.World.Agreement.{Agrees, Agrees-same}
use tellm.Runtime.Approval.{
  ChatMemberUpdated, allow_in_config, is_trusted, approve_group, added_to_chat,
  handle_membership_change,
}
use tellm.Runtime.Approval.Agreement.{set_up_room-same, allow_live-Agrees, unsaved-Agrees}

approve_group-Agrees : (k : I64) (w : World) → Agrees w → Agrees (approve_group alone k w)
unfolding approve_group
approve_group-Agrees k w v = elim (Option-cases (allow_in_config alone k w).0.1) [
  | inl ok ↦
      rw (ok, approve_group)
        (Agrees-same _ _ (set_up_room-same k false _) (allow_live-Agrees k w v ok))
  | inr (e, failed) ↦ rw (failed, approve_group) (unsaved-Agrees k w e v failed)
]

added_to_chat-Agrees :
    (now : AccessTime) (m : ChatMemberUpdated) (w : World)
    → Agrees w
    → Agrees (added_to_chat alone now m w)
unfolding added_to_chat
added_to_chat-Agrees now m w v = elim (Bool-cases (is_trusted m.from_user_id w.config)) [
  | inl trusted ↦ rw trusted (approve_group-Agrees m.chat_id w v)
  | inr stranger ↦ rw stranger (record {
    live = λ j. (live-arm_room m.chat_id j now w.access).0 ∙ v.live j;
    owners =
        λ j. ap (λ s. IdSet.contains j s) (live-arm_room m.chat_id j now w.access).1 ∙ v.owners j;
    file = v.file;
  })
]

pub handle_membership_change-Agrees :
    (now : AccessTime) (m : ChatMemberUpdated) (w : World)
    → Agrees w
    → Agrees (handle_membership_change alone now m w)
unfolding handle_membership_change
handle_membership_change-Agrees now m w v =
    elim (Bool-cases
      (is_one_of (codes "member" ∷ codes "administrator" ∷ codes "restricted" ∷ []) m.new_status)) [
        | inl added ↦ rw added (added_to_chat-Agrees now m w v)
        | inr other ↦ rw other v
      ]
