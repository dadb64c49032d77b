-- ===== src/Runtime/Approval/Agreement.antt =====
-- Each of the handlers that let chats in and out, run alone, keeps the live access, the configuration
-- and its file in agreement.
use tellm.Base.{
  ◌≡◌, inl, inr, refl, sym, ◌∙◌, Bool, true, false, Option, none, some, Text, I64, arith, ==_iff,
  Bool-cases, Option-cases,
}
use tellm.Access.{is_chat_allowed, allow_chat, deny_chat}
use tellm.Access.Live.{allowed-allow, owners-access-allow, allowed-deny, owners-access-deny}
use tellm.Runtime.ConfigEdits.{
  allow_chat_in_config, DenyChatConfigResult, deny_chat_in_config, changed,
}
use tellm.Runtime.ConfigEdits.Configured.{
  configured-allow, owners-allow, allow-unchanged, configured-deny, owners-deny, changed-deny,
  deny-unchanged,
}
use tellm.Persistence.Saves.{config_file-remove_room}
use tellm.Runtime.World.{
  World, alone, save_if, room_setup_reply, send_room_setup, setup_request, send_command_reply,
  send_model_picker, remove_room,
}
use tellm.Runtime.World.Agreement.{
  Agrees, IsSettled, save_if-IsSettled, SameAccess, Agrees-same, Agrees-saved, Agrees-failed,
}
use tellm.Runtime.Approval.{
  clean_up_room, deny_in_config, close_access, reopen_access, after_denial, confirm_denial,
  after_deny_in_config, handle_deny_chat, allow_in_config, allow_live, announce_allowed,
  set_up_room, handle_allow_chat,
}

allow_in_config-IsSettled :
    (k : I64) (w : World)
    → Agrees w
    → IsSettled w.config
        (allow_chat_in_config k w.config).1
        w.access
        (allow_in_config alone k w).1
        (allow_in_config alone k w).0.1
unfolding allow_in_config
allow_in_config-IsSettled k w v =
    let (is_new, config) = allow_chat_in_config k w.config in
    save_if-IsSettled is_new w.config (record w { config = config }) v.file
      (λ h. (allow-unchanged k w.config h).0)

pub set_up_room-same :
    (k : I64) (owner : Bool) (w : World) → SameAccess w (set_up_room alone k owner w).1
unfolding set_up_room room_setup_reply send_room_setup setup_request send_command_reply
    send_model_picker
set_up_room-same k owner w = record {
  same_config = ground arith;
  same_access = ground arith;
  same_file = ground arith;
}

pub announce_allowed-same :
    (is_new : Bool) (k j : I64) (w : World) → SameAccess w (announce_allowed alone is_new k j w).1
unfolding announce_allowed send_command_reply
announce_allowed-same is_new k j w =
    let s = set_up_room-same j false w in
    record {
      same_config = ground (arith, s.same_config);
      same_access = ground (arith, s.same_access);
      same_file = ground (arith, s.same_file);
    }

-- The saved permission and the live one.
pub allow_live-Agrees :
    (k : I64) (w : World)
    → Agrees w
    → (allow_in_config alone k w).0.1 ≡ none
    → Agrees (allow_live alone k (allow_in_config alone k w).1)
unfolding allow_live
allow_live-Agrees k w v ok =
    let s = allow_in_config-IsSettled k w v in
    let r = (allow_in_config alone k w).1 in
    let c = (allow_chat_in_config k w.config).1 in
    Agrees-saved w.config c w.access (allow_chat k r.access) r _ s ok
      (λ j. rw (s.same_access, allowed-allow, configured-allow, v.live) refl)
      (λ j. rw (s.same_access, owners-access-allow, owners-allow) (v.owners j))

pub unsaved-Agrees :
    (k : I64) (w : World) (e : Text)
    → Agrees w
    → (allow_in_config alone k w).0.1 ≡ some e
    → Agrees (allow_in_config alone k w).1
unsaved-Agrees k w e v failed =
    let s = allow_in_config-IsSettled k w v in
    Agrees-failed w _ w.access _ _ e v s failed (allow_in_config alone k w).1.access
      (λ j. rw s.same_access refl) (rw s.same_access refl)

pub handle_allow_chat-Agrees :
    (k j : I64) (w : World) → Agrees w → Agrees (handle_allow_chat alone k j w).1
unfolding handle_allow_chat
handle_allow_chat-Agrees k j w v = elim (Option-cases (allow_in_config alone j w).0.1) [
  | inl ok ↦
      rw (ok, handle_allow_chat)
        (Agrees-same _ _ (announce_allowed-same (allow_in_config alone j w).0.0 k j _)
          (allow_live-Agrees j w v ok))
  | inr (e, failed) ↦ rw (failed, handle_allow_chat) (unsaved-Agrees j w e v failed)
]

clean_up_room-same :
    (result : DenyChatConfigResult) (k j : I64) (w : World)
    → SameAccess w (clean_up_room alone result k j w).1
unfolding clean_up_room confirm_denial remove_room send_command_reply
clean_up_room-same result k j w =
    let file = config_file-remove_room j w.rooms w.writer in
    record {
      same_config = ground arith;
      same_access = ground arith;
      same_file = ground (arith, file);
    }

-- The world of a denial before its save.
denied_world : I64 → I64 → World → World
denied_world k j w = (close_access k j (record w { config = (deny_chat_in_config j w.config).1 })).1

saved_denial : I64 → I64 → World → Option Text × World
saved_denial k j w =
    save_if (changed (deny_chat_in_config j w.config).0) (alone 0) w.config (denied_world k j w)

saved_denial-IsSettled :
    (k j : I64) (w : World)
    → Agrees w
    → IsSettled w.config
        (deny_chat_in_config j w.config).1
        (deny_chat j w.access)
        (saved_denial k j w).1
        (saved_denial k j w).0
unfolding saved_denial denied_world close_access
saved_denial-IsSettled k j w v =
    save_if-IsSettled (changed (deny_chat_in_config j w.config).0) w.config (denied_world k j w)
      v.file (λ h. deny-unchanged j w.config (sym (changed-deny j w.config) ∙ h))

-- A denial that fails is one that was to change the configuration.
failed-allowed :
    (k j : I64) (w : World) (e : Text)
    → Agrees w
    → (saved_denial k j w).0 ≡ some e
    → is_chat_allowed j w.access ≡ true
unfolding saved_denial save_if
failed-allowed k j w e v failed = elim (Bool-cases (changed (deny_chat_in_config j w.config).0)) [
  | inl yes_changed ↦ v.live j ∙ sym (changed-deny j w.config) ∙ yes_changed
  | inr no_change ↦ absurd (cc (rw no_change at failed))
]

pub reopened-live :
    (j i : I64) (w : World)
    → is_chat_allowed j w.access ≡ true
    → is_chat_allowed i (allow_chat j (deny_chat j w.access)) ≡ is_chat_allowed i w.access
reopened-live j i w h =
    ground (arith, allowed-allow j i (deny_chat j w.access), allowed-deny j i w.access, ==_iff j i)

reopen_access-same :
    (k j : I64) (r : World)
    → SameAccess (record r { access = allow_chat j r.access }) (reopen_access (alone 3) true k j r)
unfolding reopen_access
reopen_access-same k j r = record {
  same_config = ground arith;
  same_access = ground arith;
  same_file = ground arith;
}

after_denial-Agrees :
    (k j : I64) (w : World) (error : Option Text) (r : World)
    → Agrees w
    → IsSettled w.config (deny_chat_in_config j w.config).1 (deny_chat j w.access) r error
    → ((e : Text) → error ≡ some e → is_chat_allowed j w.access ≡ true)
    → Agrees
        (after_denial
          (alone 3)
          (is_chat_allowed j w.access)
          k
          j
          (deny_chat_in_config j w.config).0
          (error, r)).1
unfolding after_denial
after_denial-Agrees k j w none r v s h =
    Agrees-saved w.config _ _ r.access r none s refl
      (λ i. rw (s.same_access, allowed-deny, configured-deny, v.live) refl)
      (λ i. rw (s.same_access, owners-access-deny, owners-deny) (v.owners i))
after_denial-Agrees k j w (some e) r v s h = rw (h e refl) (
    Agrees-same _ _ (reopen_access-same k j r) (
      Agrees-failed w _ _ r (some e) e v s refl (allow_chat j r.access)
        (λ i. rw s.same_access (reopened-live j i w (h e refl)))
        (rw (s.same_access, owners-access-allow, owners-access-deny) refl)))

deny_in_config-Agrees : (k j : I64) (w : World) → Agrees w → Agrees (deny_in_config alone k j w).1
unfolding deny_in_config saved_denial denied_world close_access
deny_in_config-Agrees k j w v =
    after_denial-Agrees k j w (saved_denial k j w).0 (saved_denial k j w).1 v
      (saved_denial-IsSettled k j w v) (λ e failed. failed-allowed k j w e v failed)

after_deny_in_config-Agrees :
    (k j : I64) (r : (DenyChatConfigResult × Option Text) × World)
    → Agrees r.1
    → Agrees (after_deny_in_config alone k j r).1
unfolding after_deny_in_config
after_deny_in_config-Agrees k j ((result, some e), w) v = v
after_deny_in_config-Agrees k j ((result, none), w) v =
    Agrees-same _ _ (clean_up_room-same result k j w) v

pub handle_deny_chat-Agrees :
    (k j : I64) (w : World) → Agrees w → Agrees (handle_deny_chat alone k j w).1
unfolding handle_deny_chat
handle_deny_chat-Agrees k j w v =
    after_deny_in_config-Agrees k j (deny_in_config alone k j w) (deny_in_config-Agrees k j w v)
