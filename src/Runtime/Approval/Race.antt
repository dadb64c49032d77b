-- ===== src/Runtime/Approval/Race.antt =====
-- A denial that runs between the two halves of a permission of the same chat: `handle_allow_chat`
-- gives up the lock of the configuration before it opens the live access.
use tellm.Base.{
  ℕ, zero, suc, ◌≡◌, refl, ◌∙◌, Bool, true, false, Option, none, some, Text, I64, eq_refl, ap,
}
use tellm.Config.{Config}
use tellm.Access.{is_chat_allowed, new_with_generator, from_config}
use tellm.Access.Startup.{new_with_generator-from_config}
use tellm.Access.Live.{allowed-allow}
use tellm.Persistence.Saves.{IsReliable, save_config-IsReliable}
use tellm.Runtime.ConfigEdits.{DenyChatConfigResult}
use tellm.Runtime.ConfigEdits.Configured.{configured}
use tellm.Runtime.World.{World, Others, alone, from, save_if, save_or_restore, restore_unless}
use tellm.Runtime.World.Agreement.{SameAccess}
use tellm.Runtime.Approval.{
  allow_in_config, allow_live, announce_allowed, set_up_room, handle_allow_chat, deny_in_config,
  close_access, after_denial, handle_deny_chat,
}
use tellm.Runtime.Approval.Agreement.{announce_allowed-same}
use tellm.Runtime.Approval.Revocation.{alone-LeavesOut, IsDenied, saved_denial-IsDenied}

-- At the pause between the halves a denial of the chat `j` runs, from the chat `m`; no other task
-- runs.
pub denied_between : I64 → I64 → Others
denied_between m j zero w = w
denied_between m j (suc zero) w = w
denied_between m j (suc (suc zero)) w = (handle_deny_chat alone m j w).1
denied_between m j (suc (suc (suc n))) w = w

saved-IsReliable :
    (b : Bool) (before : Config) (w : World)
    → IsReliable w.writer
    → ((save_if b (alone 0) before w).0 ≡ none) × IsReliable (save_if b (alone 0) before w).1.writer
unfolding save_if save_or_restore restore_unless
saved-IsReliable false before w h = (refl, h)
saved-IsReliable true before w h =
    let (ok, reliable) = save_config-IsReliable w.config w.writer h in rw ok (refl, reliable)

after_denial-saved :
    (other : World → World) (b : Bool) (k j : I64) (result : DenyChatConfigResult)
    (saved : Option Text × World)
    → saved.0 ≡ none
    → (after_denial other b k j result saved).0.1 ≡ none
unfolding after_denial
after_denial-saved other b k j result (none, w) h = refl
after_denial-saved other b k j result (some e, w) h = absurd cc

denied_saved :
    (m j : I64) (w : World) → IsReliable w.writer → (deny_in_config alone m j w).0.1 ≡ none
unfolding deny_in_config close_access
denied_saved m j w h = after_denial-saved (alone 3) _ m j _ _ (saved-IsReliable _ _ _ h).0

reliable-IsDenied :
    (m j : I64) (w : World) → IsReliable w.writer → IsDenied j (handle_deny_chat alone m j w).1
reliable-IsDenied m j w h =
    (saved_denial-IsDenied alone m j w (λ n. alone-LeavesOut j n) (denied_saved m j w h)).0

allowed_saved :
    (j : I64) (w : World)
    → IsReliable w.writer
    → ((allow_in_config alone j w).0.1 ≡ none) × IsReliable (allow_in_config alone j w).1.writer
unfolding allow_in_config
allowed_saved j w h = saved-IsReliable _ _ _ h

-- The world after the second half of a permission between whose halves the denial ran.
raced_world : I64 → I64 → World → World
raced_world m j w = allow_live (from 2 (denied_between m j)) j (allow_in_config alone j w).1

raced :
    (m j : I64) (w : World)
    → IsReliable w.writer
    → (is_chat_allowed j (raced_world m j w).access ≡ true)
      × (configured j (raced_world m j w).config ≡ false)
unfolding raced_world allow_live denied_between
raced m j w h =
    let d = reliable-IsDenied m j (allow_in_config alone j w).1 (allowed_saved j w h).1 in
    (rw (allowed-allow, eq_refl) refl, d.listed)

allowed_lem :
    (others : Others) (k j : I64) (w : World)
    → (allow_in_config others j w).0.1 ≡ none
    → handle_allow_chat others k j w
      ≡ announce_allowed
          (from 3 others)
          (allow_in_config others j w).0.0
          k
          j
          (allow_live (from 2 others) j (allow_in_config others j w).1)
unfolding handle_allow_chat
allowed_lem others k j w ok = rw (ok, handle_allow_chat) refl

announced-same :
    (b : Bool) (k m j : I64) (w : World)
    → SameAccess w (announce_allowed (from 3 (denied_between m j)) b k j w).1
unfolding announce_allowed denied_between set_up_room
announced-same b k m j w = announce_allowed-same b k j w

-- A permission of the chat `j`, with a denial of `j` from the chat `m` between its two halves, while
-- every write succeeds: in the end the chat is allowed live, although the configuration denies it, so
-- that after a restart with that configuration it is not allowed.
pub handle_allow_chat-raced :
    (k m j : I64) (w : World) (generator : ℕ → Text)
    → IsReliable w.writer
    → let r = handle_allow_chat (denied_between m j) k j w in
      (is_chat_allowed j r.1.access ≡ true)
      × (configured j r.1.config ≡ false)
      × (is_chat_allowed j (new_with_generator (from_config r.1.config) generator) ≡ false)
unfolding raced_world denied_between allow_in_config
handle_allow_chat-raced k m j w generator h =
    let (live, listed) = raced m j w h in
    let same = announced-same (allow_in_config alone j w).0.0 k m j (raced_world m j w) in
    let no_more = ap (λ c. configured j c) same.same_config ∙ listed in
    rw (allowed_lem (denied_between m j) k j w (allowed_saved j w h).0) (
      ap (λ a. is_chat_allowed j a) same.same_access ∙ live,
      no_more,
      (new_with_generator-from_config _ generator j j).0 ∙ no_more,
    )
