-- ===== src/Events/Examples.antt =====
-- event/manager.go: concrete runs.
use cliffhanger.Prelude.{
  ℕ, ◌≡◌, refl, Bool, false, some, List, [], ◌∷◌, arith, ltb, nat_eq, string_eq,
}
use cliffhanger.Prelude.Int.{pos, int_eq}
use cliffhanger.Prelude.Dict.{lookup, insert}
use cliffhanger.Events.{
  Subscription, Manager, new_manager, set_channel, filter, publish_to, publish, subscribe_sized,
}
use cliffhanger.Events.Safety.{
  EventOp, publish_op, subscribe_op, unsubscribe_op, receive_op, IsSound,
}
use cliffhanger.Events.Runs.{event_run, event_run-IsSound}
use cliffhanger.Events.Delivery.{IsDelivered, publish-IsDelivered, queue_after}

abbrev nobody : ℕ → Bool
nobody i = false

-- numbers for events, and those above 2 for a filter
abbrev events : List (EventOp ℕ)
events =
    subscribe_op "ui" (pos 1) ((λ n. ltb 2 n) ∷ [])
    ∷ publish_op nobody 1
    ∷ publish_op nobody 3
    ∷ publish_op nobody 4
    ∷ receive_op 0
    ∷ unsubscribe_op "ui"
    ∷ unsubscribe_op "ui"
    ∷ []

event_run-IsSound_example : (m : Manager ℕ) × (event_run events new_manager ≡ some m) × IsSound m
event_run-IsSound_example =
    event_run-IsSound events (omega arith, (tt, (tt, (tt, (tt, (tt, (tt, tt)))))))

abbrev watcher : Subscription ℕ
watcher = record { channel = 0; filters = (λ n. ltb 2 n) ∷ [] }

abbrev watched : Manager ℕ
watched = (subscribe_sized "ui" 1 watcher.filters new_manager).0

abbrev told : Manager ℕ
told = record watched {
  channels =
      set_channel 0 (record { buffer = 1; queue = 3 ∷ []; is_closed = false }) watched.channels;
}

publish-IsDelivered_example : IsDelivered nobody 3 watcher (watched.channels 0) (told.channels 0)
unfolding subscribe_sized new_manager lookup insert publish publish_to
publish-IsDelivered_example =
    publish-IsDelivered nobody 3 "ui" watcher watched told (omega arith, refl, tt, tt) refl refl

dropped_test : queue_after nobody 4 watcher (told.channels 0) ≡ 3 ∷ []
unfolding queue_after filter subscribe_sized new_manager lookup insert
dropped_test = refl
