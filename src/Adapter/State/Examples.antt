-- ===== src/Adapter/State/Examples.antt =====
-- Instances of the laws of adapter/state.go.
use cliffhanger.Prelude.{
  arith, ℕ, inl, inr, str_eq, Bool-cases, String, ◌≡◌, refl, ◌≢◌, ◌↔◌, true, Option, none, some,
  List, [], ◌∷◌, nat_eq, string_eq,
}
use cliffhanger.Prelude.Int.{pos, ◌+ℤ◌, int_eq}
use cliffhanger.Prelude.Dict.{lookup, insert, remove}
use cliffhanger.Adapter.State.{
  ThingStateModel, Snapshot, State, returned, saved, failed_old, new_state, acquire_address, add,
  remove_thing, set_state, snapshot, save,
}
use cliffhanger.Adapter.State.Address.{
  Event, acquire, restart, addresses, after, IsIncreasing, addresses-IsIncreasing,
}
use cliffhanger.Adapter.State.Things.{set_state-stale}
use cliffhanger.Adapter.State.Locking.{Returns, set_state-stuck}

abbrev file : Snapshot
file = record { saved_index = pos 4; saved_things = [] }

abbrev lamp : ThingStateModel
lamp = record { thing_id = "lamp"; address = "5"; info = ""; state = ""; inclusion_checksum = 0 }

abbrev events : List Event
events = acquire saved ∷ acquire failed_old ∷ acquire saved ∷ restart ∷ acquire saved ∷ []

events_run : addresses events (new_state file) ≡ pos 5 ∷ pos 7 ∷ pos 8 ∷ []
unfolding addresses after new_state acquire_address save snapshot ◌+ℤ◌
events_run = refl

addresses-IsIncreasing_example : IsIncreasing (pos 4) (addresses events (new_state file))
addresses-IsIncreasing_example = addresses-IsIncreasing events file

abbrev with_lamp : State
with_lamp = (add saved lamp (new_state file)).0

-- the lamp, whose proxy is place 0, is replaced by another of its ID
replaced : State
unfolding add remove_thing save
replaced = (add saved lamp (remove_thing saved "lamp" with_lamp).0).0

only_place : (j : String) (k : ℕ) → lookup j replaced.things ≡ some k → k ≢ 0
unfolding replaced new_state lookup add remove_thing save insert remove
only_place j k e z = elim (Bool-cases (str_eq "lamp" j)) [
  | inl q ↦ (let same : some 1 ≡ some k = rw q at e in ground (arith, same))
  | inr q ↦ (let same : none ≡ some k = rw q at e in absurd cc)
]

set_state-stale_example :
    (s' : State) × (set_state (some "on") saved 0 replaced ≡ returned (s', true))
    × ((j : String) → lookup j s'.persisted.saved_things ≡ lookup j replaced.persisted.saved_things)
unfolding replaced add remove_thing save insert remove new_state snapshot
set_state-stale_example = set_state-stale "on" 0 replaced refl only_place

set_state-stuck_example :
    Returns (set_state none saved 0 with_lamp)
    ↔ ((◌≢◌ {A = Option String} none none) × (saved ≡ saved))
set_state-stuck_example = set_state-stuck none saved 0 with_lamp
