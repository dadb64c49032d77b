-- ===== src/Runtime/World/Agreement.antt =====
-- The live access control, the configuration and the configuration's file, which say the same of
-- every chat and user.
use tellm.Base.{
  ◌≡◌, ◌⊎◌, inl, inr, refl, sym, ◌∙◌, ap, Bool, true, false, Option, none, some, Text, I64,
  Option-cases,
}
use tellm.Base.IdSet
use tellm.Config.{Config}
use tellm.Access.{AccessControl, is_chat_allowed}
use tellm.Persistence.{save_config}
use tellm.Persistence.Saves.{config_file-save_config}
use tellm.Runtime.ConfigEdits.Configured.{configured}
use tellm.Runtime.World.{World, save_if, save_or_restore, restore_unless, alone}

-- The chats that the bot answers are those of the configuration, the owners too, and the file has
-- the configuration.
pub record Agrees (w : World) : Type 0 where
  pub live : (j : I64) → is_chat_allowed j w.access ≡ configured j w.config
  pub owners :
      (j : I64)
      → IdSet.contains j w.access.owner_user_ids ≡ IdSet.contains j w.config.telegram.owner_user_ids
  pub file : w.writer.config_file ≡ some w.config

-- The outcome of a save: the new configuration is in the file and in memory, or the one before is in
-- both; the access control is not touched.
pub record IsSettled (before after : Config) (access : AccessControl) (r : World)
    (error : Option Text) : Type 0 where
  pub outcome :
      ((error ≡ none) × (r.config ≡ after)) ⊎ ((e : Text) × (error ≡ some e) × (r.config ≡ before))
  pub in_file : r.writer.config_file ≡ some r.config
  pub same_access : r.access ≡ access

pub save_if-IsSettled :
    (b : Bool) (before : Config) (w : World)
    → w.writer.config_file ≡ some before
    → (b ≡ false → w.config ≡ before)
    → IsSettled before w.config w.access
        (save_if b (alone 0) before w).1
        (save_if b (alone 0) before w).0
unfolding save_if save_or_restore restore_unless
save_if-IsSettled false before w h same = record {
  outcome = inl (refl, refl);
  in_file = h ∙ ap some (sym (same refl));
  same_access = refl;
}
save_if-IsSettled true before w h same =
    let file = config_file-save_config w.config w.writer in
    elim (Option-cases (save_config w.config w.writer).0) [
      | inl ok ↦
          rw ok (record { outcome = inl (refl, refl); in_file = rw ok at file; same_access = refl })
      | inr (error, failed) ↦ rw failed (record {
        outcome = inr (error, refl, refl);
        in_file = (rw failed at file) ∙ h;
        same_access = refl;
      })
    ]

-- Two worlds with the same configuration, access control and configuration file.
pub record SameAccess (w w' : World) : Type 0 where
  pub same_config : w'.config ≡ w.config
  pub same_access : w'.access ≡ w.access
  pub same_file : w'.writer.config_file ≡ w.writer.config_file

pub Agrees-same : (w w' : World) → SameAccess w w' → Agrees w → Agrees w'
Agrees-same w w' s v = record {
  live = λ j. rw (s.same_config, s.same_access) (v.live j);
  owners = λ j. rw (s.same_config, s.same_access) (v.owners j);
  file = s.same_file ∙ v.file ∙ ap some (sym s.same_config);
}

pub SameAccess-trans : (w w' w'' : World) → SameAccess w w' → SameAccess w' w'' → SameAccess w w''
SameAccess-trans w w' w'' a b = record {
  same_config = rw (b.same_config, a.same_config) refl;
  same_access = rw (b.same_access, a.same_access) refl;
  same_file = rw (b.same_file, a.same_file) refl;
}

pub SameAccess-refl : (w : World) → SameAccess w w
SameAccess-refl w = record { same_config = refl; same_access = refl; same_file = refl }

-- A settled save whose change of the configuration the access control `access` goes along with.
pub Agrees-saved :
    (before after : Config) (a access : AccessControl) (r : World) (error : Option Text)
    → IsSettled before after a r error
    → error ≡ none
    → ((j : I64) → is_chat_allowed j access ≡ configured j after)
    → ((j : I64)
        → IdSet.contains j access.owner_user_ids ≡ IdSet.contains j after.telegram.owner_user_ids)
    → Agrees (record r { access = access })
Agrees-saved before after a access r error s ok live owners = elim s.outcome [
  | inl (e, same) ↦ record {
    live = λ j. rw same (live j);
    owners = λ j. rw same (owners j);
    file = s.in_file;
  }
  | inr (e, failed, same) ↦ absurd cc
]

pub config-failed :
    (before after : Config) (a : AccessControl) (r : World) (error : Option Text) (e : Text)
    → IsSettled before after a r error
    → error ≡ some e
    → r.config ≡ before
config-failed before after a r error e s failed = elim s.outcome [
  | inl (ok, same) ↦ absurd cc
  | inr (e', failed', same) ↦ same
]

-- After a save that failed, the access control of before goes along with the configuration.
pub Agrees-failed :
    (w : World) (after : Config) (access : AccessControl) (r : World) (error : Option Text)
    (e : Text)
    → Agrees w
    → IsSettled w.config after access r error
    → error ≡ some e
    → (a : AccessControl) → ((j : I64) → is_chat_allowed j a ≡ is_chat_allowed j w.access)
    → a.owner_user_ids ≡ w.access.owner_user_ids
    → Agrees (record r { access = a })
Agrees-failed w after access r error e v s failed a live owners =
    let same = config-failed w.config after access r error e s failed in
    record {
      live = λ j. rw same (live j ∙ v.live j);
      owners = λ j. rw (same, owners) (v.owners j);
      file = s.in_file;
    }

-- A saved change of the configuration that allows the same chats and has the same owners.
pub Agrees-changed :
    (b : Bool) (config : Config) (w : World)
    → Agrees w
    → ((j : I64) → configured j config ≡ configured j w.config)
    → config.telegram.owner_user_ids ≡ w.config.telegram.owner_user_ids
    → (b ≡ false → config ≡ w.config)
    → Agrees (save_if b (alone 1) w.config (record w { config = config })).1
Agrees-changed b config w v same owners unchanged =
    let changed : World = record w { config = config } in
    let s = save_if-IsSettled b w.config changed v.file unchanged in
    let r = (save_if b (alone 1) w.config changed).1 in
    elim (Option-cases (save_if b (alone 1) w.config changed).0) [
      | inl ok ↦
          Agrees-saved w.config config w.access r.access r _ s ok
            (λ j. rw (s.same_access, same) (v.live j))
            (λ j. rw (s.same_access, owners) (v.owners j))
      | inr (e, failed) ↦
          Agrees-failed w config w.access r _ e v s failed r.access (λ j. rw s.same_access refl)
            (rw s.same_access refl)
    ]
