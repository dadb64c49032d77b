-- ===== src/Access/Examples.antt =====
-- A bot with one allowed chat and one owner, and a second chat that pairs with it.
use tellm.Base.{
  ℕ, ◌+◌, ◌*◌, ◌≤◌, ◌≡◌, ◌↔◌, refl, Bool, true, false, ◌||◌, ◌&&◌, not, ◌==◌, Option, none, some,
  List, [], ◌∷◌, I64, Text, codes, arith,
}
use tellm.Base.IdMap
use tellm.Base.IdSet
use tellm.Config.{Config, pins}
use tellm.Access.Startup.{new_with_generator-from_config}
use tellm.Access.{
  from_config, AccessConfig, AccessControl, new_with_generator, attempt_pair, paired,
  check_privileged, PrivilegedAccess, is_chat_allowed, deny_chat, room_code, check_chat, unknown,
  arm_room, RoomPairing,
}
use tellm.Access.Code.{normalize_pairing_code, secure_pairing_code, zero_padded, constant_time_eq}
use tellm.Access.Invariant.{IsWellFormed}
use tellm.Access.Histories.{AccessCall, arm, check, pair, after_calls, after_calls-IsWellFormed}
use tellm.Access.Pairing.{
  IsLocked, code_in_force, is_paired, attempt_pair-paired_iff, allowed-attempt_pair,
}
use tellm.Access.Lockout.{answers, rejections, rejections-answers_le}
use tellm.Access.Membership.{check_privileged-allowed_iff, deny_chat_lem, arm_room_twice}
use tellm.Access.Code.Compare.{constant_time_eq_iff}

abbrev config : AccessConfig
config = record { allowed_chat_ids = 1 ∷ []; owner_user_ids = 5 ∷ []; pinned_chat_ids = [] }

abbrev generator : ℕ → Text
generator n = codes "42"

abbrev fresh : AccessControl
fresh = new_with_generator config generator

-- The chat 7 has written, has its code, and has tried a wrong one.
abbrev history : List AccessCall
history = check 7 ∷ arm 7 10 ∷ pair 7 (codes "123456") 20 ∷ []

abbrev armed : AccessControl
armed = after_calls history fresh

armed-IsWellFormed_example : IsWellFormed armed
armed-IsWellFormed_example = after_calls-IsWellFormed config generator history

attempt_pair-paired_iff_example : ((attempt_pair 7 (codes "000042") 30 armed).0 ≡ paired) ↔ (
    (IdSet.contains 7 armed.allowed_chat_ids ≡ false)
    × (¬ IsLocked 7 30 armed)
    × (codes "000042" ≡ code_in_force 7 30 armed))
attempt_pair-paired_iff_example =
    attempt_pair-paired_iff 7 (codes "000042") 30 armed
      (after_calls-IsWellFormed config generator history)

allowed-attempt_pair_example :
    IdSet.contains 7 (attempt_pair 7 (codes "000042") 30 armed).1.allowed_chat_ids ≡ (
      IdSet.contains 7 armed.allowed_chat_ids
      || (7 == 7 && is_paired (attempt_pair 7 (codes "000042") 30 armed).0))
allowed-attempt_pair_example = allowed-attempt_pair 7 7 (codes "000042") 30 armed

rejections-answers_example :
    rejections (answers 7 ((codes "1", 20) ∷ (codes "2", 21) ∷ (codes "000042", 22) ∷ []) fresh) ≤ 4
unfolding new_with_generator IdMap.get
rejections-answers_example =
    rejections-answers_le 20 7 ((codes "1", 20) ∷ (codes "2", 21) ∷ (codes "000042", 22) ∷ []) fresh
      (omega arith) refl (omega arith)

check_privileged-allowed_example :
    (check_privileged (some 5) 100 160 fresh ≡ PrivilegedAccess.allowed) ↔ (
      (user_id : I64) × (some 5 ≡ some user_id)
      × (IdSet.contains user_id fresh.owner_user_ids ≡ true)
      × (160 ≤ 100 + 60))
check_privileged-allowed_example = check_privileged-allowed_iff (some 5) 100 160 fresh

deny_chat_example :
    (is_chat_allowed 7 (deny_chat 7 armed) ≡ false)
    × (room_code 7 (deny_chat 7 armed) ≡ none)
    × (IdMap.get 7 (deny_chat 7 armed).attempts ≡ none)
    × ((check_chat 7 (deny_chat 7 armed)).0 ≡ unknown true)
    × (is_chat_allowed 1 (deny_chat 7 armed) ≡ is_chat_allowed 1 armed)
    × (room_code 1 (deny_chat 7 armed) ≡ room_code 1 armed)
    × (IdMap.get 1 (deny_chat 7 armed).attempts ≡ IdMap.get 1 armed.attempts)
deny_chat_example = deny_chat_lem 7 1 armed refl

abbrev issued : RoomPairing
issued = record { code = codes "000042"; newly_issued = true }

issued_first : (arm_room 7 10 fresh).0 ≡ some issued
unfolding arm_room new_with_generator IdSet.contains IdSet.union tellm.Access.ensure_room_code
    IdMap.get IdMap.insert normalize_pairing_code zero_padded tellm.Base.Decimal.decimal
    tellm.Access.Code.parse_u32 tellm.Base.Decimal.parse_nonempty
issued_first = refl

arm_room_twice_example :
    (arm_room 7 609 (arm_room 7 10 fresh).1
      ≡ (some (record { code = codes "000042"; newly_issued = false }), (arm_room 7 10 fresh).1))
    × ((arm_room 7 610 (arm_room 7 10 fresh).1).0
        ≡ some (record {
          code = normalize_pairing_code (fresh.code_generator (fresh.generated + 1));
          newly_issued = true;
        }))
arm_room_twice_example =
    arm_room_twice 7 10 609 610 fresh issued (omega arith) issued_first refl (omega arith)
      (omega arith)

constant_time_eq_example :
    (constant_time_eq (codes "000042") (codes "000042") ≡ true) ↔ (codes "000042" ≡ codes "000042")
constant_time_eq_example = constant_time_eq_iff (codes "000042") (codes "000042")

abbrev configuration : Config
configuration = record {
  default_model = [];
  models = [];
  telegram = record { allowed_chat_ids = 1 ∷ 1 ∷ []; owner_user_ids = 5 ∷ [] };
}

new_with_generator_example :
    (is_chat_allowed 1 (new_with_generator (from_config configuration) generator) ≡ (
      IdSet.contains 1 configuration.telegram.allowed_chat_ids
      || IdSet.contains 1 (pins configuration.models)))
    × (IdSet.contains 5 (new_with_generator (from_config configuration) generator).owner_user_ids
        ≡ IdSet.contains 5 configuration.telegram.owner_user_ids)
new_with_generator_example = new_with_generator-from_config configuration generator 1 5
