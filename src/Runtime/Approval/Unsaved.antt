-- ===== src/Runtime/Approval/Unsaved.antt =====
-- Changes of the access that the disk refuses.
use tellm.Base.{
  ◌≡◌, ◌∙◌, refl, sym, true, false, Option, some, [], ◌∷◌, ◌++◌, Text, codes, I64, arith,
}
use tellm.Config.{Config}
use tellm.Access.{
  AccessTime, is_chat_allowed, attempt_pair, PairingAttempt, paired, already_allowed, rejected,
  locked_out, allow_chat, deny_chat,
}
use tellm.Access.Pairing.{is_paired}
use tellm.Access.Live.{paired-denied, owners-access-deny, owners-access-allow, owners-attempt_pair}
use tellm.Persistence.{save_config}
use tellm.Runtime.ConfigEdits.{pair_in_config, deny_chat_in_config}
use tellm.Runtime.ConfigEdits.Configured.{configured, pair-changed, changed-deny}
use tellm.Runtime.World.{
  World, text_message, alone, save_if, save_or_restore, restore_unless, send_command_reply,
}
use tellm.Runtime.World.Agreement.{Agrees}
use tellm.Runtime.Approval.{
  persist_paired_chat, persist_provisional_pair, revoke_unless_saved, after_pairing,
  pairing_matched, pairing_answer, handle_pair_attempt, deny_in_config, after_denial, close_access,
  reopen_access, handle_deny_chat, after_deny_in_config, deny_save_error,
}
use tellm.Runtime.Approval.Pairing.{revoked_live}
use tellm.Runtime.Approval.Agreement.{reopened-live}

-- A save that fails puts the configuration of before back, and changes nothing else but the
-- writer's count.
unsaved :
    (before : Config) (w : World) (e : Text)
    → (save_config w.config w.writer).0 ≡ some e
    → save_if true (alone 1) before w
      ≡ (some e, record w { config = before; writer = (save_config w.config w.writer).1 })
unfolding save_if save_or_restore restore_unless
unsaved before w e failed = rw failed refl

-- The world after an attempt whose save fails.
refused : I64 → Text → AccessTime → Option I64 → World → World
refused k code now user w = record w {
  access = deny_chat k (attempt_pair k code now w.access).1;
  writer = (save_config (pair_in_config k user w.config).1 w.writer).1;
}

refused_lem :
    (answer : PairingAttempt) (k : I64) (code : Text) (now : AccessTime) (user : Option I64)
    (w : World) (e : Text)
    → is_paired answer ≡ true
    → (pair_in_config k user w.config).0.1 ≡ true
    → (save_config (pair_in_config k user w.config).1 w.writer).0 ≡ some e
    → pairing_answer alone answer k user
        (record w { access = (attempt_pair k code now w.access).1 })
      ≡ (
        some (codes "pairing matched but could not be persisted; access was revoked: " ++ e),
        (send_command_reply k
            (codes
              "Pairing could not be saved, so this chat remains denied. Contact the bot owner after fixing local config storage.")
            (refused k code now user w)).1,
      )
unfolding pairing_answer pairing_matched persist_provisional_pair persist_paired_chat after_pairing
    revoke_unless_saved refused
refused_lem paired k code now user w e p c failed =
    let changed_world : World = record w {
      access = (attempt_pair k code now w.access).1;
      config = (pair_in_config k user w.config).1;
    } in
    rw (c, unsaved w.config changed_world e failed) refl
refused_lem already_allowed k code now user w e p c failed = absurd cc
refused_lem (rejected n) k code now user w e p c failed = absurd cc
refused_lem (locked_out t) k code now user w e p c failed = absurd cc

-- A pairing attempt, run alone in agreement, whose code matches but whose configuration cannot be
-- saved: its error says so, the configuration and the owners are as before, exactly the chats are
-- allowed that were before, so that the chat itself is not, and the chat gets one message that says
-- so.
pub handle_pair_attempt-unsaved :
    (k : I64) (code : Text) (now : AccessTime) (user : Option I64) (w : World) (e : Text)
    → Agrees w
    → is_paired (attempt_pair k code now w.access).0 ≡ true
    → (save_config (pair_in_config k user w.config).1 w.writer).0 ≡ some e
    → let r = handle_pair_attempt alone now k code user w in
      (r.0 ≡ some (codes "pairing matched but could not be persisted; access was revoked: " ++ e))
      × (r.1.config ≡ w.config)
      × (r.1.access.owner_user_ids ≡ w.access.owner_user_ids)
      × ((j : I64) → is_chat_allowed j r.1.access ≡ is_chat_allowed j w.access)
      × (is_chat_allowed k r.1.access ≡ false)
      × (r.1.telegram.requests
          ≡ w.telegram.requests
            ++ text_message k (
                codes
                  "Pairing could not be saved, so this chat remains denied. Contact the bot owner after fixing local config storage.")
              ∷ [])
unfolding handle_pair_attempt refused send_command_reply
handle_pair_attempt-unsaved k code now user w e v p failed =
    let strange : is_chat_allowed k w.access ≡ false = paired-denied k code now w.access p in
    let c = pair-changed k user w.config (sym (v.live k) ∙ strange) in
    rw (refused_lem (attempt_pair k code now w.access).0 k code now user w e p c failed) (
      refl,
      refl,
      owners-access-deny k _ ∙ owners-attempt_pair k code now w.access,
      λ j. revoked_live now k j code w.access p,
      revoked_live now k k code w.access p ∙ strange,
      refl,
    )

-- The world after a denial whose save fails.
kept_open : I64 → I64 → Config → World → World
kept_open k j config w =
    (reopen_access (alone 3) (is_chat_allowed j w.access) k j (record (close_access k j w).1 {
      config = w.config;
      writer = (save_config config w.writer).1;
    }))

denied_lem :
    (k j : I64) (w : World) (e : Text)
    → configured j w.config ≡ true
    → (save_config (deny_chat_in_config j w.config).1 w.writer).0 ≡ some e
    → deny_in_config alone k j w ≡ (
      ((deny_chat_in_config j w.config).0, some e),
      kept_open k j (deny_chat_in_config j w.config).1 w,
    )
unfolding deny_in_config close_access after_denial kept_open
denied_lem k j w e listed failed =
    let denied : World =
      (close_access k j (record w { config = (deny_chat_in_config j w.config).1 })).1 in
    rw (changed-deny j w.config ∙ listed, unsaved w.config denied e failed) refl

reopened :
    (k j : I64) (config : Config) (w : World)
    → is_chat_allowed j w.access ≡ true
    → ((kept_open k j config w).config ≡ w.config)
      × ((kept_open k j config w).access ≡ allow_chat j (deny_chat j w.access))
      × ((kept_open k j config w).rooms ≡ w.rooms)
      × ((kept_open k j config w).telegram ≡ w.telegram)
unfolding kept_open reopen_access close_access
reopened k j config w h = rw h (ground arith, ground arith, ground arith, ground arith)

-- A denial, run alone in agreement, of a chat that is allowed, when the configuration cannot be
-- saved: the error says so, and exactly the chats are allowed that were before, live and by the
-- configuration, with the same owners; no room is removed, and nothing is sent.
pub handle_deny_chat-unsaved :
    (k j : I64) (w : World) (e : Text)
    → Agrees w
    → is_chat_allowed j w.access ≡ true
    → (save_config (deny_chat_in_config j w.config).1 w.writer).0 ≡ some e
    → let r = handle_deny_chat alone k j w in
      (r.0 ≡ some (deny_save_error j e))
      × (r.1.config ≡ w.config)
      × (r.1.access.owner_user_ids ≡ w.access.owner_user_ids)
      × ((i : I64) → is_chat_allowed i r.1.access ≡ is_chat_allowed i w.access)
      × (r.1.rooms ≡ w.rooms)
      × (r.1.telegram ≡ w.telegram)
unfolding handle_deny_chat after_deny_in_config
handle_deny_chat-unsaved k j w e v allowed failed =
    let listed : configured j w.config ≡ true = sym (v.live j) ∙ allowed in
    let (config, access, rooms, telegram) =
      reopened k j (deny_chat_in_config j w.config).1 w allowed in
    rw (denied_lem k j w e listed failed) (
      refl,
      config,
      rw (access, owners-access-allow, owners-access-deny) refl,
      λ i. rw access (reopened-live j i w allowed),
      rooms,
      telegram,
    )
