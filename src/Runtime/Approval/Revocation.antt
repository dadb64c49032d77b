-- ===== src/Runtime/Approval/Revocation.antt =====
-- What a denial leaves, whatever other tasks do at its pauses.
use tellm.Base.{
  ℕ, ◌+◌, ◌≡◌, ◌≢◌, inl, inr, refl, ◌∙◌, Bool, true, false, Option, none, some, Text, I64, arith,
  eq_refl, Option-cases,
}
use tellm.Config.{Config}
use tellm.Access.{is_chat_allowed}
use tellm.Access.Live.{allowed-deny}
use tellm.Rooms.Table
use tellm.Rooms.Table.{RoomStates}
use tellm.Persistence.{save_config}
use tellm.Persistence
use tellm.Persistence.Transactions.{remove_room_lem}
use tellm.Runtime.ConfigEdits.{DenyChatConfigResult}
use tellm.Runtime.ConfigEdits.Configured.{configured, configured-deny}
use tellm.Runtime.World.{
  World, Others, alone, from, save_if, save_or_restore, remove_room, send_command_reply,
  restore_unless,
}
use tellm.Runtime.Approval.{
  close_access, after_denial, deny_in_config, confirm_denial, clean_up_room, deny_save_error,
  after_deny_in_config, handle_deny_chat,
}

-- A task that does not let a chat in: it neither allows the chat, live or in the configuration, nor
-- makes a room for it. Apart from that it may do anything.
pub record LeavesOut (j : I64) (other : World → World) : Type 0 where
  pub live :
      (w : World) → is_chat_allowed j w.access ≡ false → is_chat_allowed j (other w).access ≡ false
  pub listed : (w : World) → configured j w.config ≡ false → configured j (other w).config ≡ false
  pub rooms : (w : World) → Table.get j w.rooms ≡ none → Table.get j (other w).rooms ≡ none

pub alone-LeavesOut : (j : I64) (n : ℕ) → LeavesOut j (alone n)
alone-LeavesOut j n = record { live = λ w h. h; listed = λ w h. h; rooms = λ w h. h }

-- What a denied chat has lost.
pub record IsDenied (j : I64) (w : World) : Type 0 where
  pub live : is_chat_allowed j w.access ≡ false
  pub listed : configured j w.config ≡ false

saved-IsDenied :
    (b : Bool) (other : World → World) (before : Config) (j : I64) (w : World)
    → LeavesOut j other
    → IsDenied j w
    → (save_if b other before w).0 ≡ none
    → IsDenied j (save_if b other before w).1
unfolding save_if save_or_restore restore_unless
saved-IsDenied false other before j w o d ok = d
saved-IsDenied true other before j w o d ok =
    elim (Option-cases (save_config w.config w.writer).0) [
      | inl e ↦ rw e (record { live = o.live _ d.live; listed = d.listed })
      | inr (error, e) ↦ absurd (cc (rw e at ok))
    ]

after_denial-ok :
    (other : World → World) (b : Bool) (k j : I64) (result : DenyChatConfigResult)
    (saved : Option Text × World)
    → (after_denial other b k j result saved).0.1 ≡ none
    → (saved.0 ≡ none) × ((after_denial other b k j result saved).1 ≡ saved.1)
unfolding after_denial
after_denial-ok other b k j result (none, w) h = (refl, refl)
after_denial-ok other b k j result (some e, w) h = absurd cc

deny_in_config-IsDenied :
    (others : Others) (k j : I64) (w : World)
    → LeavesOut j (others 2)
    → (deny_in_config others k j w).0.1 ≡ none
    → IsDenied j (deny_in_config others k j w).1
unfolding deny_in_config close_access
deny_in_config-IsDenied others k j w o ok =
    let (saved, same) = after_denial-ok (others 3) _ k j _ _ ok in
    rw same (
      saved-IsDenied _ (others 2) _ j _ o
        (record {
          live = rw (allowed-deny, eq_refl) refl;
          listed = rw (configured-deny, eq_refl) refl;
        })
        saved)

confirmed_same :
    (result : DenyChatConfigResult) (k j : I64) (r : Option Text × World)
    → ((confirm_denial result k j r).1.config ≡ r.1.config)
      × ((confirm_denial result k j r).1.access ≡ r.1.access)
      × ((confirm_denial result k j r).1.rooms ≡ r.1.rooms)
unfolding confirm_denial send_command_reply
confirmed_same result k j (some e, w) = (refl, refl, refl)
confirmed_same result k j (none, w) = (refl, refl, refl)

clean_up_room-IsDenied :
    (others : Others) (result : DenyChatConfigResult) (k j : I64) (w : World)
    → LeavesOut j (others 0)
    → LeavesOut j (others 1)
    → IsDenied j w
    → IsDenied j (clean_up_room others result k j w).1
      × (Table.get j (clean_up_room others result k j w).1.rooms ≡ none)
unfolding clean_up_room remove_room
clean_up_room-IsDenied others result k j w o0 o1 d =
    let w' = others 0 w in
    let r = remove_room (others 1) j w' in
    let (config, access, rooms) = confirmed_same result k j r in
    let gone : Table.get j (Persistence.remove_room j w'.rooms w'.writer).0.1 ≡ none =
      (remove_room_lem j j w'.rooms w'.writer).0 ∙ (rw eq_refl refl) in
    (
      record {
        live = rw access (o1.live _ (o0.live w d.live));
        listed = rw config (o1.listed _ (o0.listed w d.listed));
      },
      rw rooms (o1.rooms _ gone),
    )

after_deny_in_config-IsDenied :
    (others : Others) (k j : I64) (r : (DenyChatConfigResult × Option Text) × World)
    → LeavesOut j (others 0)
    → LeavesOut j (others 1)
    → IsDenied j r.1
    → r.0.1 ≡ none
    → IsDenied j (after_deny_in_config others k j r).1
      × (Table.get j (after_deny_in_config others k j r).1.rooms ≡ none)
unfolding after_deny_in_config
after_deny_in_config-IsDenied others k j ((result, some e), w) o0 o1 d ok = absurd cc
after_deny_in_config-IsDenied others k j ((result, none), w) o0 o1 d ok =
    clean_up_room-IsDenied others result k j w o0 o1 d

unsaved_error :
    (others : Others) (k j : I64) (r : (DenyChatConfigResult × Option Text) × World) (e : Text)
    → r.0.1 ≡ some e
    → (after_deny_in_config others k j r).0 ≡ some (deny_save_error j e)
unfolding after_deny_in_config
unsaved_error others k j ((result, some e'), w) e h = ground arith
unsaved_error others k j ((result, none), w) e h = absurd cc

-- A denial whose save succeeded leaves the chat denied, with the work of others from its pause 2 on.
pub saved_denial-IsDenied :
    (others : Others) (k j : I64) (w : World)
    → ((pause : ℕ) → LeavesOut j (others (2 + pause)))
    → (deny_in_config others k j w).0.1 ≡ none
    → IsDenied j (handle_deny_chat others k j w).1
      × (Table.get j (handle_deny_chat others k j w).1.rooms ≡ none)
unfolding handle_deny_chat
saved_denial-IsDenied others k j w o saved =
    after_deny_in_config-IsDenied (from 4 others) k j (deny_in_config others k j w) (o 2) (o 3)
      (deny_in_config-IsDenied others k j w (o 0) saved) saved

-- A denial whose configuration was saved holds: the chat is neither allowed live nor by the
-- configuration, and has no room, also if the removal of the room could not be saved. Other tasks may
-- do anything before the chat is closed, and from then on anything but let it in or make it a room.
pub handle_deny_chat-IsDenied :
    (others : Others) (k j : I64) (w : World)
    → ((pause : ℕ) → LeavesOut j (others (2 + pause)))
    → ((e : Text) → (handle_deny_chat others k j w).0 ≢ some (deny_save_error j e))
    → IsDenied j (handle_deny_chat others k j w).1
      × (Table.get j (handle_deny_chat others k j w).1.rooms ≡ none)
unfolding handle_deny_chat
handle_deny_chat-IsDenied others k j w o ok =
    elim (Option-cases (deny_in_config others k j w).0.1) [
      | inl saved ↦ saved_denial-IsDenied others k j w o saved
      | inr (e, failed) ↦
          absurd (ok e (unsaved_error (from 4 others) k j (deny_in_config others k j w) e failed))
    ]
