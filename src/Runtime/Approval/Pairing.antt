-- ===== src/Runtime/Approval/Pairing.antt =====
-- A pairing attempt, run alone: the agreement is kept, and a pairing that is not saved is revoked.
use tellm.Base.{
  ◌≡◌, inl, inr, refl, ◌∙◌, Bool, true, false, ◌||◌, Option, none, some, Text, I64, arith, ◌==◌,
  ==_iff, if◌then◌else◌, Bool-cases,
}
use tellm.Base.IdSet
use tellm.Access.{
  AccessControl, AccessTime, is_chat_allowed, deny_chat, add_owner, attempt_pair, PairingAttempt,
  paired, already_allowed, rejected, locked_out,
}
use tellm.Access.Pairing.{is_paired}
use tellm.Access.Live.{
  allowed-deny, owners-access-deny, allowed-add_owner, owners-add_owner, owners-attempt_pair,
  paired-denied, live-attempt_pair,
}
use tellm.Runtime.ConfigEdits.{pair_in_config}
use tellm.Runtime.ConfigEdits.Configured.{configured-pair, owners-pair, pair-unchanged, is_user}
use tellm.Runtime.World.{World, alone, send_command_reply}
use tellm.Runtime.World.Agreement.{
  Agrees, IsSettled, save_if-IsSettled, SameAccess, Agrees-same, Agrees-saved, Agrees-failed,
}
use tellm.Runtime.Approval.{
  persist_paired_chat, persist_provisional_pair, revoke_unless_saved, add_pairer, after_pairing,
  pairing_matched, pairing_answer, handle_pair_attempt,
}
use tellm.Runtime.Approval.Agreement.{set_up_room-same}

persist_paired_chat-IsSettled :
    (k : I64) (user : Option I64) (w : World)
    → w.writer.config_file ≡ some w.config
    → IsSettled w.config
        (pair_in_config k user w.config).1
        w.access
        (persist_paired_chat alone k user w).1
        (persist_paired_chat alone k user w).0.1
unfolding persist_paired_chat
persist_paired_chat-IsSettled k user w file =
    let ((became, is_changed), config) = pair_in_config k user w.config in
    save_if-IsSettled is_changed w.config (record w { config = config }) file
      (λ h. (pair-unchanged k user w.config h).0)

-- The access control with the pairing user among its owners, if it became one.
with_pairer : Option I64 → Bool → AccessControl → AccessControl
with_pairer (some u) true a = add_owner u a
with_pairer (some u) false a = a
with_pairer none b a = a

add_pairer_lem :
    (user : Option I64) (b : Bool) (r : World)
    → add_pairer alone user b r ≡ record r { access = with_pairer user b r.access }
unfolding add_pairer with_pairer
add_pairer_lem (some u) true r = refl
add_pairer_lem (some u) false r = refl
add_pairer_lem none true r = refl
add_pairer_lem none false r = refl

live-with_pairer :
    (user : Option I64) (b : Bool) (j : I64) (a : AccessControl)
    → (is_chat_allowed j (with_pairer user b a) ≡ is_chat_allowed j a)
      × (IdSet.contains j (with_pairer user b a).owner_user_ids
          ≡ ((if b then is_user user j else false) || IdSet.contains j a.owner_user_ids))
unfolding with_pairer is_user
live-with_pairer (some u) true j a = (allowed-add_owner u j a, owners-add_owner u j a)
live-with_pairer (some u) false j a = (refl, refl)
live-with_pairer none true j a = (refl, refl)
live-with_pairer none false j a = (refl, refl)

-- The world of an attempt: only the access control is new.
attempted : AccessTime → I64 → Text → World → World
attempted now k code w = record w { access = (attempt_pair k code now w.access).1 }

paired_live :
    (now : AccessTime) (k j : I64) (code : Text) (a : AccessControl)
    → is_paired (attempt_pair k code now a).0 ≡ true
    → is_chat_allowed j (attempt_pair k code now a).1 ≡ (k == j || is_chat_allowed j a)
paired_live now k j code a p = ground (arith, live-attempt_pair k j code now a)

pub revoked_live :
    (now : AccessTime) (k j : I64) (code : Text) (a : AccessControl)
    → is_paired (attempt_pair k code now a).0 ≡ true
    → is_chat_allowed j (deny_chat k (attempt_pair k code now a).1) ≡ is_chat_allowed j a
revoked_live now k j code a p = ground (
  arith,
  allowed-deny k j (attempt_pair k code now a).1,
  paired_live now k j code a p,
  paired-denied k code now a p,
  ==_iff k j,
)

after_pairing-Agrees :
    (now : AccessTime) (k : I64) (code : Text) (user : Option I64) (w : World) (became : Bool)
    (error : Option Text) (r : World)
    → Agrees w
    → is_paired (attempt_pair k code now w.access).0 ≡ true
    → became ≡ (pair_in_config k user w.config).0.0
    → IsSettled w.config
        (pair_in_config k user w.config).1
        (attempt_pair k code now w.access).1
        r
        error
    → Agrees (after_pairing alone k user (revoke_unless_saved (alone 2) k ((became, error), r))).1
unfolding after_pairing revoke_unless_saved send_command_reply
after_pairing-Agrees now k code user w became none r v p b s = rw add_pairer_lem (
    Agrees-same _ _ (set_up_room-same k became _) (
      Agrees-saved w.config _ _ (with_pairer user became r.access) r none s refl
        (λ j.
          (live-with_pairer user became j r.access).0
          ∙ rw s.same_access
              (paired_live now k j code w.access p ∙ rw (v.live j, configured-pair) refl))
        (λ j.
          (live-with_pairer user became j r.access).1
          ∙ rw (s.same_access, owners-attempt_pair, b, owners-pair, v.owners) refl)))
after_pairing-Agrees now k code user w became (some e) r v p b s =
    Agrees-same _ _ (record { same_config = refl; same_access = refl; same_file = refl })
      (Agrees-failed w _ _ r (some e) e v s refl (deny_chat k r.access)
        (λ j. rw s.same_access (revoked_live now k j code w.access p))
        (rw (s.same_access, owners-access-deny, owners-attempt_pair) refl))

answered-same :
    (answer : PairingAttempt) (k : I64) (user : Option I64) (w : World)
    → is_paired answer ≡ false
    → SameAccess w (pairing_answer alone answer k user w).1
unfolding pairing_answer send_command_reply
answered-same paired k user w h = absurd cc
answered-same already_allowed k user w h = record {
  same_config = refl;
  same_access = refl;
  same_file = refl;
}
answered-same (rejected n) k user w h = record {
  same_config = refl;
  same_access = refl;
  same_file = refl;
}
answered-same (locked_out t) k user w h = record {
  same_config = refl;
  same_access = refl;
  same_file = refl;
}

matched-Agrees :
    (answer : PairingAttempt) (now : AccessTime) (k : I64) (code : Text) (user : Option I64)
    (w : World)
    → Agrees w
    → is_paired (attempt_pair k code now w.access).0 ≡ true
    → is_paired answer ≡ true
    → Agrees (pairing_answer alone answer k user (attempted now k code w)).1
unfolding pairing_answer pairing_matched persist_provisional_pair persist_paired_chat attempted
matched-Agrees paired now k code user w v p h =
    after_pairing-Agrees now k code user w _ _ _ v p refl
      (persist_paired_chat-IsSettled k user (attempted now k code w) v.file)
matched-Agrees already_allowed now k code user w v p h = absurd cc
matched-Agrees (rejected n) now k code user w v p h = absurd cc
matched-Agrees (locked_out t) now k code user w v p h = absurd cc

pub handle_pair_attempt-Agrees :
    (now : AccessTime) (k : I64) (code : Text) (user : Option I64) (w : World)
    → Agrees w
    → Agrees (handle_pair_attempt alone now k code user w).1
unfolding handle_pair_attempt attempted
handle_pair_attempt-Agrees now k code user w v =
    let a = (attempt_pair k code now w.access).1 in
    let answer = (attempt_pair k code now w.access).0 in
    elim (Bool-cases (is_paired answer)) [
      | inl p ↦ matched-Agrees answer now k code user w v p p
      | inr n ↦
          Agrees-same (attempted now k code w) _
            (answered-same answer k user (attempted now k code w) n)
            (record {
              live = λ j. ground (arith, live-attempt_pair k j code now w.access, v.live j);
              owners = λ j. rw owners-attempt_pair (v.owners j);
              file = v.file;
            })
    ]
