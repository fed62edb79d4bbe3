-- ===== src/Lifecycle/Examples.antt =====
-- Runs of lifecycle/lifecycle.go, and instances of its laws.
use cliffhanger.Prelude.{
  arith, String, ◌≡◌, refl, sym, ◌∙◌, ◌≢◌, false, none, some, List, [], ◌∷◌, str_eq, eq_iff, nat_eq,
  string_eq,
}
use cliffhanger.Prelude.Int.{pos, int_eq}
use cliffhanger.Prelude.Dict.{lookup, insert}
use mathlib.Core.Bool.{false≢true}
use cliffhanger.Lifecycle.{
  Lifecycle, new, set_field, subscribe_sized, wait_for, health, conn, get_field, Op, set_op,
  subscribe_op, unsubscribe_op, run,
}
use cliffhanger.Lifecycle.Sound.{IsFine, new-IsSound, run-IsFine, subscribe_sized-IsSound}
use cliffhanger.Lifecycle.Delivery.{IsChange, set_field-IsChange}
use cliffhanger.Lifecycle.Waiting.{wait_for_lost}

abbrev started : Lifecycle
started = new 5 none

abbrev watched : Lifecycle
watched = (subscribe_sized "ui" 1 started).0

abbrev calls : List Op
calls =
    subscribe_op "ui" (pos 1)
    ∷ set_op health "RUNNING" []
    ∷ set_op conn "CONNECTED" []
    ∷ unsubscribe_op "ui"
    ∷ set_op health "ERROR" []
    ∷ []

text_ne : (s t : String) → str_eq s t ≡ false → s ≢ t
text_ne s t h e = false≢true (sym h ∙ (eq_iff s t).1 e)

run-IsFine_example : IsFine (run calls started)
run-IsFine_example =
    run-IsFine calls started (omega arith, (tt, (tt, (tt, (tt, tt))))) (new-IsSound 5 none)

set_field-IsChange_example :
    (m : Lifecycle) × (set_field health "RUNNING" [] watched ≡ some m)
    × IsChange health "RUNNING" [] watched m
unfolding subscribe_sized new lookup insert
set_field-IsChange_example =
    set_field-IsChange health "RUNNING" [] watched
      (subscribe_sized-IsSound "ui" 1 started (new-IsSound 5 none))
      (text_ne "RUNNING" "STARTING" refl)

abbrev running : Lifecycle
running = record started { app_health = "RUNNING" }

wait_for_lost_example :
    let (w, waiting) = wait_for "task" "APP_HEALTH" "RUNNING" started running in
    (waiting ≡ some 0)
    × ((w.channels 0).buffer ≡ [])
    × (get_field health w ≡ "RUNNING")
    × (set_field health "RUNNING" [] w ≡ some w)
unfolding new lookup
wait_for_lost_example =
    wait_for_lost "task" health "RUNNING" [] started running (text_ne "RUNNING" "STARTING" refl)
      refl refl
