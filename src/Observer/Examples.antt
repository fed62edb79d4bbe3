-- ===== src/Observer/Examples.antt =====
-- Runs of prime/observer, and instances of its laws.
use cliffhanger.Prelude.{◌≡◌, refl, none, some, [], ◌∷◌, nat_eq, string_eq}
use cliffhanger.Prelude.Int.{pos, int_eq}
use cliffhanger.Prelude.Dict.{Dict, lookup, insert}
use cliffhanger.Observer.Notify.{Item, Notify, nil, parse_integer_id}
use cliffhanger.Observer.Set.{ComponentSet, new_set}
use cliffhanger.Observer.Update.{
  Observer, Strategy, on_device, on_room, strategy_of, register, new_observer, new, update,
}
use cliffhanger.Observer.Laws.Sound.{IsSound, new-IsSound, update-IsSound}
use cliffhanger.Observer.Laws.View.{view, changed, same_kind, update-view}

abbrev wired : Dict Strategy
wired = ("device", on_device) ∷ ("room", on_room) ∷ []

abbrev watching : Observer
watching = new_observer (pos 60) ("device" ∷ "room" ∷ []) wired

watching_lem : new (pos 60) ("device" ∷ "room" ∷ []) ≡ some watching
unfolding new register strategy_of insert
watching_lem = refl

abbrev lamp : Item
lamp = record { id = pos 7; rest = "lamp" }

abbrev added : Notify
added = record { component = "device"; cmd = "add"; notify_id = nil; param = some lamp }

abbrev broken : Notify
broken = record { component = "device"; cmd = "edit"; notify_id = nil; param = none }

abbrev hub : ComponentSet
hub = record { devices = lamp ∷ []; things = []; rooms = []; areas = [] }

watching-IsSound : IsSound watching
watching-IsSound = new-IsSound (pos 60) ("device" ∷ "room" ∷ []) watching watching_lem

update-IsSound_example : IsSound (update added watching).0
update-IsSound_example = update-IsSound added watching watching-IsSound

update-view_example :
    view on_device (update added watching).0.set (pos 7)
    ≡ changed "add" (some lamp) (parse_integer_id nil) (view on_device (new_set none)) (pos 7)
unfolding same_kind
update-view_example =
    update-view added watching on_device on_device (pos 7) watching-IsSound (unfold lookup in refl)
