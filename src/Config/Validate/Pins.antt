-- ===== src/Config/Validate/Pins.antt =====
-- A chat is pinned to one model at most.
use tellm.Base.{
  ◌≡◌, refl, false, Option, none, some, List, [], ◌∷◌, ◌++◌, All, Text, is_some, ◌==◌, arith, I64,
}
use tellm.Base.IdMap
use tellm.Base.IdMap.{IdMap, get-insert}
use tellm.Base.IdSet
use tellm.Config.{ModelConfig, Config, pins}
use tellm.Config.Validate.{Url, pin_chats, pin_problem, models_problems, validate}
use tellm.Config.Validate.Safety.{empty_front, cons_not_nil}

abbrev pub IsPinnedOnce : List I64 → Type 0
IsPinnedOnce [] = Unit
IsPinnedOnce (i ∷ is) = (IdSet.contains i is ≡ false) × IsPinnedOnce is

-- Chats that are pinned once, and none of them before.
abbrev IsFree : IdMap Text → List I64 → Type 0
IsFree pinned ids = All (λ i. is_some (IdMap.get i pinned) ≡ false) ids × IsPinnedOnce ids

insert-IsFree :
    (c : I64) (key : Text) (pinned : IdMap Text) (ids : List I64)
    → All (λ i. is_some (IdMap.get i (IdMap.insert c key pinned)) ≡ false) ids
    → All (λ i. is_some (IdMap.get i pinned) ≡ false) ids × (IdSet.contains c ids ≡ false)
unfolding IdSet.contains
insert-IsFree c key pinned [] h = (tt, refl)
insert-IsFree c key pinned (i ∷ is) (h, hs) =
    let (free, apart) = insert-IsFree c key pinned is hs in
    let one : (is_some (IdMap.get i pinned) ≡ false) × ((i == c) ≡ false) =
      ground (arith, get-insert c i key pinned) in
    ((one.0, free), ground (arith, apart, one))

pin_problem_lem :
    (c : I64) (key : Text) (pinned : Option Text)
    → pin_problem c key pinned ≡ []
    → is_some pinned ≡ false
unfolding pin_problem
pin_problem_lem c key none h = refl
pin_problem_lem c key (some previous) h = absurd (cons_not_nil h)

pin_chats-IsFree :
    (key : Text) (ids : List I64) (pinned : IdMap Text) (rest : List I64)
    → (pin_chats key ids pinned).0 ≡ []
    → IsFree (pin_chats key ids pinned).1 rest
    → IsFree pinned (ids ++ rest)
unfolding pin_chats
pin_chats-IsFree key [] pinned rest h free = free
pin_chats-IsFree key (c ∷ cs) pinned rest h free =
    let (first, others) = empty_front (pin_problem c key (IdMap.get c pinned)) _ h in
    let (all, once) = pin_chats-IsFree key cs (IdMap.insert c key pinned) rest others free in
    let (unpinned, apart) = insert-IsFree c key pinned (cs ++ rest) all in
    ((pin_problem_lem c key (IdMap.get c pinned) first, unpinned), (apart, once))

module _ (parse_url : Text → Option Url) where
  models_problems-IsFree :
      (models : List (Text × ModelConfig)) (pinned : IdMap Text)
      → models_problems parse_url models pinned ≡ []
      → IsFree pinned (pins models)
  unfolding models_problems
  models_problems-IsFree [] pinned h = (tt, tt)
  models_problems-IsFree ((key, model) ∷ models) pinned h =
      let (h1, rest) = empty_front _ _ h in
      let (_, own) = empty_front _ _ h1 in
      let after = (pin_chats key model.telegram_chat_ids pinned).1 in
      pin_chats-IsFree key model.telegram_chat_ids pinned (pins models) own
        (models_problems-IsFree models after rest)

  -- If the validation reports no problem, no chat is pinned to two models, or twice to one.
  pub validate-IsPinnedOnce :
      (config : Config) → validate parse_url config ≡ [] → IsPinnedOnce (pins config.models)
  unfolding validate
  validate-IsPinnedOnce config h =
      let (_, problems) = empty_front _ _ h in (models_problems-IsFree config.models [] problems).1
