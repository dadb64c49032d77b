-- ===== src/Access/Histories.antt =====
-- Any sequence of calls on `AccessControl`, from its construction on.
use tellm.Base.{ℕ, List, [], ◌∷◌, Text, I64}
use tellm.Access.{
  AccessControl, AccessConfig, AccessTime, new_with_generator, arm_room, check_chat, allow_chat,
  deny_chat, add_owner, attempt_pair,
}
use tellm.Access.Invariant.{
  IsWellFormed, new-IsWellFormed, arm_room-IsWellFormed, check_chat-IsWellFormed,
  deny_chat-IsWellFormed, attempt_pair-IsWellFormed,
}

-- The calls of methods that take `&mut self`.
pub data AccessCall : Type 0 where
  arm : I64 → AccessTime → AccessCall
  check allow deny own : I64 → AccessCall
  pair : I64 → Text → AccessTime → AccessCall

pub after_call : AccessCall → AccessControl → AccessControl
after_call (arm chat_id now) a = (arm_room chat_id now a).1
after_call (check chat_id) a = (check_chat chat_id a).1
after_call (allow chat_id) a = allow_chat chat_id a
after_call (deny chat_id) a = deny_chat chat_id a
after_call (own user_id) a = add_owner user_id a
after_call (pair chat_id code now) a = (attempt_pair chat_id code now a).1

pub after_calls : List AccessCall → AccessControl → AccessControl
unfolding after_call
after_calls [] a = a
after_calls (c ∷ cs) a = after_calls cs (after_call c a)

after_call-IsWellFormed :
    (c : AccessCall) (a : AccessControl) → IsWellFormed a → IsWellFormed (after_call c a)
unfolding after_call allow_chat add_owner
after_call-IsWellFormed (arm chat_id now) a v = arm_room-IsWellFormed chat_id now a v
after_call-IsWellFormed (check chat_id) a v = check_chat-IsWellFormed chat_id a v
after_call-IsWellFormed (allow chat_id) a v = record { codes = v.codes; counts = v.counts }
after_call-IsWellFormed (deny chat_id) a v = deny_chat-IsWellFormed chat_id a v
after_call-IsWellFormed (own user_id) a v = record { codes = v.codes; counts = v.counts }
after_call-IsWellFormed (pair chat_id code now) a v = attempt_pair-IsWellFormed chat_id code now a v

after_calls_keep :
    (cs : List AccessCall) (a : AccessControl) → IsWellFormed a → IsWellFormed (after_calls cs a)
unfolding after_calls
after_calls_keep [] a v = v
after_calls_keep (c ∷ cs) a v = after_calls_keep cs (after_call c a) (after_call-IsWellFormed c a v)

-- After any sequence of calls on a new `AccessControl`, with any generator: every armed code is six
-- ASCII digits, and every failure entry either has no lock and fewer than five failures, or has a
-- lock and exactly five.
pub after_calls-IsWellFormed :
    (config : AccessConfig) (generator : ℕ → Text) (cs : List AccessCall)
    → IsWellFormed (after_calls cs (new_with_generator config generator))
after_calls-IsWellFormed config generator cs =
    after_calls_keep cs (new_with_generator config generator) (new-IsWellFormed config generator)
