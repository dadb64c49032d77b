-- ===== src/Runtime/System/Restart.antt =====
-- Any sequence of events, each handled alone.
use tellm.Base.{
  ◌≡◌, ◌∙◌, inl, inr, refl, sym, ap, ℕ, Bool, true, false, not, ◌||◌, Option, none, some, List, [],
  ◌∷◌, Text, I64, Bool-cases,
}
use tellm.Base.IdMap
use tellm.Base.IdSet
use tellm.Config.{Config}
use tellm.Access.{
  AccessTime, ChatAccess, allowed, unknown, is_chat_allowed, new_with_generator, from_config,
}
use tellm.Access.Live.{live-check_chat, live-arm_room}
use tellm.Access.Startup.{new_with_generator-from_config}
use tellm.Telegram.Message.{IncomingMessage}
use tellm.Turn.Input.{message_has_input, message_text}
use tellm.Runtime.Workers.{ChatDispatcher, Workers, Dispatch, queued, dropped, recv}
use tellm.Runtime.World.{World, alone, worker_can_reply, chat_is_allowed, send_command_reply}
use tellm.Runtime.World.Agreement.{Agrees, SameAccess, SameAccess-refl, Agrees-same}
use tellm.Runtime.Approval.Pairing.{handle_pair_attempt-Agrees}
use tellm.Runtime.Approval.Membership.{handle_membership_change-Agrees}
use tellm.Runtime.Routing.{Route, command_route, user_message_route, ignore_route}
use tellm.Runtime.Routing
use tellm.Runtime.Routing.Checked.{IsChecked, route_command-IsChecked}
use tellm.Runtime.Actions.{Services}
use tellm.Runtime.Actions.Agreement.{handle_command-Agrees}
use tellm.Runtime.Messages.{Ending, returned, panicked}
use tellm.Runtime.Messages.Agreement.{handle_model_message-SameAccess}
use tellm.Runtime.System.{
  Externals, model_message, routed, sender, by_text, handle_allowed_message, worker_ended, handled,
  taken, worker_of, worker_round, notify_full, unknown_chat, checked, handle_update, Event,
  message_update, membership_update, edited_update, worker_event, worker_timeout, terminal_reset,
  round_end, idle, idle_of, end_round, happen, run,
}

module _ (ext : Externals) (bot : Option Text) where
  model_message-access :
      (k : I64) (worker_id : ℕ) (m : IncomingMessage) (w : World)
      → SameAccess w (model_message alone ext k worker_id m w).1
  unfolding model_message
  model_message-access k worker_id m w = elim (Bool-cases (message_has_input m)) [
    | inl has ↦
        rw has
          (handle_model_message-SameAccess ext.base64_decode k worker_id ext.dispatch_provider _ w)
    | inr no_input ↦ rw no_input (SameAccess-refl w)
  ]

  routed-Agrees :
      (env : Services) (k : I64) (worker_id : ℕ) (m : IncomingMessage) (config : Config)
      (r : (Option Text × Route) × World)
      → Agrees r.1
      → r.1.config ≡ config
      → (r.0.0 ≡ none → (is_chat_allowed k r.1.access ≡ true) × IsChecked r.0.1 config)
      → Agrees (routed alone ext env k worker_id m r).1
  unfolding routed
  routed-Agrees env k worker_id m config ((some e, route), w) v same h = v
  routed-Agrees env k worker_id m config ((none, command_route action), w) v same h =
      handle_command-Agrees env k action w (rw same (h refl).1) (h refl).0 v
  routed-Agrees env k worker_id m config ((none, user_message_route), w) v same h =
      Agrees-same _ _ (model_message-access k worker_id m w) v
  routed-Agrees env k worker_id m config ((none, ignore_route), w) v same h = v
  routed-Agrees env k worker_id m config ((none, Routing.panicked), w) v same h = v

  by_text-Agrees :
      (env : Services) (k : I64) (worker_id : ℕ) (m : IncomingMessage) (t : Option Text) (w : World)
      → Agrees w
      → Agrees (by_text alone ext env bot k worker_id m t w).1
  unfolding by_text chat_is_allowed
  by_text-Agrees env k worker_id m none w v =
      Agrees-same _ _ (model_message-access k worker_id m w) v
  by_text-Agrees env k worker_id m (some text) w v =
      let (same, checks) = route_command-IsChecked env.now bot k text m.date (sender m.from) w in
      routed-Agrees env k worker_id m w.config _ (Agrees-same _ _ same v) same.same_config
        (λ h. (rw same.same_access (checks h).0, (checks h).1))

  handled-Agrees :
      (k : I64) (worker_id : ℕ) (r : Ending × World)
      → Agrees r.1
      → Agrees (handled alone k worker_id r)
  unfolding handled worker_ended send_command_reply
  handled-Agrees k worker_id (panicked, w) v = record {
    live = v.live;
    owners = v.owners;
    file = v.file;
  }
  handled-Agrees k worker_id (returned none, w) v = v
  handled-Agrees k worker_id (returned (some e), w) v =
      elim (Bool-cases (worker_can_reply k worker_id w)) [
        | inl can ↦ rw can (record { live = v.live; owners = v.owners; file = v.file })
        | inr silent ↦ rw silent v
      ]

  taken-Agrees :
      (env : Services) (k : I64) (worker_id : ℕ) (o : Option (IncomingMessage × ChatDispatcher))
      (w : World)
      → Agrees w
      → Agrees (taken alone ext env bot k worker_id o w)
  unfolding taken handle_allowed_message
  taken-Agrees env k worker_id none w v = v
  taken-Agrees env k worker_id (some (m, d)) w v = handled-Agrees k worker_id _ (
      by_text-Agrees env k worker_id m (message_text m) _
        (record { live = v.live; owners = v.owners; file = v.file }))

  worker_of-Agrees :
      (env : Services) (k : I64) (o : Option ChatDispatcher) (w : World)
      → Agrees w
      → Agrees (worker_of alone ext env bot k o w)
  unfolding worker_of worker_ended
  worker_of-Agrees env k none w v = v
  worker_of-Agrees env k (some d) w v =
      elim (Bool-cases
        (IdSet.contains d.worker_id w.workers.aborted || not (worker_can_reply k d.worker_id w))) [
          | inl ends ↦ rw ends (record { live = v.live; owners = v.owners; file = v.file })
          | inr works ↦ rw works (taken-Agrees env k d.worker_id (recv d) w v)
        ]

  notify_full-Agrees :
      (k : I64) (r : Dispatch × Workers) (w : World) → Agrees w → Agrees (notify_full k r w)
  unfolding notify_full send_command_reply
  notify_full-Agrees k (queued, p) w v = record { live = v.live; owners = v.owners; file = v.file }
  notify_full-Agrees k (dropped false, p) w v = record {
    live = v.live;
    owners = v.owners;
    file = v.file;
  }
  notify_full-Agrees k (dropped true, p) w v = record {
    live = v.live;
    owners = v.owners;
    file = v.file;
  }

  unknown_chat-Agrees :
      (now : AccessTime) (m : IncomingMessage) (b : Bool) (code : Option Text) (w : World)
      → Agrees w
      → Agrees (unknown_chat alone now m b code w)
  unfolding unknown_chat send_command_reply
  unknown_chat-Agrees now m b (some code) w v =
      handle_pair_attempt-Agrees now m.chat.id code (sender m.from) w v
  unknown_chat-Agrees now m true none w v = record {
    live = v.live;
    owners = v.owners;
    file = v.file;
  }
  unknown_chat-Agrees now m false none w v = v

  checked-Agrees :
      (now : AccessTime) (m : IncomingMessage) (access : ChatAccess) (w : World)
      → Agrees w
      → Agrees (checked alone now bot m access w)
  unfolding checked
  checked-Agrees now m allowed w v = notify_full-Agrees m.chat.id _ w v
  checked-Agrees now m (unknown hint) w v = unknown_chat-Agrees now m hint _ _ (record {
    live = λ j. (live-arm_room m.chat.id j now w.access).0 ∙ v.live j;
    owners =
        λ j. ap (λ s. IdSet.contains j s) (live-arm_room m.chat.id j now w.access).1 ∙ v.owners j;
    file = v.file;
  })

  handle_update-Agrees :
      (now : AccessTime) (m : IncomingMessage) (w : World)
      → Agrees w
      → Agrees (handle_update alone now bot m w)
  unfolding handle_update
  handle_update-Agrees now m w v = checked-Agrees now m _ _ (record {
    live = λ j. (live-check_chat m.chat.id j w.access).0 ∙ v.live j;
    owners =
        λ j. ap (λ s. IdSet.contains j s) (live-check_chat m.chat.id j w.access).1 ∙ v.owners j;
    file = v.file;
  })

  idle-Agrees :
      (k : I64) (worker_id : ℕ) (o : Option (IncomingMessage × ChatDispatcher)) (w : World)
      → Agrees w
      → Agrees (idle k worker_id o w)
  unfolding idle worker_ended
  idle-Agrees k worker_id (some r) w v = v
  idle-Agrees k worker_id none w v = record { live = v.live; owners = v.owners; file = v.file }

  idle_of-Agrees :
      (k : I64) (o : Option ChatDispatcher) (w : World) → Agrees w → Agrees (idle_of k o w)
  unfolding idle_of
  idle_of-Agrees k none w v = v
  idle_of-Agrees k (some d) w v = idle-Agrees k d.worker_id (recv d) w v

  happen-Agrees : (event : Event) (w : World) → Agrees w → Agrees (happen alone ext bot event w)
  unfolding happen worker_round end_round
  happen-Agrees (message_update now m) w v = handle_update-Agrees now m w v
  happen-Agrees (membership_update now m) w v = handle_membership_change-Agrees now m w v
  happen-Agrees edited_update w v = v
  happen-Agrees (worker_event env k) w v =
      worker_of-Agrees env k (IdMap.get k w.workers.dispatchers) w v
  happen-Agrees (worker_timeout k) w v = idle_of-Agrees k (IdMap.get k w.workers.dispatchers) w v
  happen-Agrees terminal_reset w v = record { live = v.live; owners = v.owners; file = v.file }
  happen-Agrees (round_end finished) w v = record {
    live = v.live;
    owners = v.owners;
    file = v.file;
  }

  run-Agrees : (events : List Event) (w : World) → Agrees w → Agrees (run ext bot events w)
  unfolding run
  run-Agrees [] w v = v
  run-Agrees (event ∷ events) w v = run-Agrees events _ (happen-Agrees event w v)

-- The program is started with a configuration that its file has, and any events happen, each of
-- them handled to its end before the next: messages of any chats, commands among them, membership
-- changes, the rounds and timeouts of the workers, and the rounds of the poll loop, whatever the providers, Telegram and the disk answer. Then
-- the file has a configuration with which a restart allows exactly the chats that are allowed live
-- by then, and has exactly their owners.
pub run-restart :
    (ext : Externals) (bot : Option Text) (events : List Event) (w : World)
    (generator later_generator : ℕ → Text)
    → w.access ≡ new_with_generator (from_config w.config) generator
    → w.writer.config_file ≡ some w.config
    → (config : Config) × ((run ext bot events w).writer.config_file ≡ some config)
      × ((j : I64)
          → (is_chat_allowed j (new_with_generator (from_config config) later_generator)
              ≡ is_chat_allowed j (run ext bot events w).access)
            × (IdSet.contains j
                  (new_with_generator (from_config config) later_generator).owner_user_ids
                ≡ IdSet.contains j (run ext bot events w).access.owner_user_ids))
run-restart ext bot events w generator later_generator started file =
    let first = new_with_generator-from_config w.config generator in
    let v = run-Agrees ext bot events w (record {
      live = λ j. rw started (first j j).0;
      owners = λ j. rw started (first j j).1;
      file = file;
    }) in
    let w' = run ext bot events w in
    (
      w'.config,
      v.file,
      λ j.
          let again = new_with_generator-from_config w'.config later_generator j j in
          (again.0 ∙ sym (v.live j), again.1 ∙ sym (v.owners j)),
    )
