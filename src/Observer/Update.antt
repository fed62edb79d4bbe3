-- ===== src/Observer/Update.antt =====
-- prime/observer/observer.go: the state of the observer, its reaction to a notification, and its
-- refreshes. A call runs under one lock, so it is one step; what it publishes to the event manager
-- is appended to `published`, the client's answer and `time.Now()` are arguments.
use cliffhanger.Prelude.{
  String, Bool, true, false, not, ◌&&◌, ◌||◌, Option, none, some, List, [], ◌∷◌, ◌++◌, str_eq,
  if◌then◌else◌,
}
use cliffhanger.Prelude.Int.{ℤ, ltb_ℤ, Time, Duration, zero_time, is_zero, since}
use cliffhanger.Prelude.Dict.{Dict, lookup, insert}
use cliffhanger.Observer.Notify.{
  Item, Notify, component_device, component_thing, component_room, component_area, cmd_add,
  cmd_edit, cmd_delete, parse_integer_id, Fetched, got, nil_item, unmarshal_error, get_device,
  get_thing, get_room, get_area,
}
use cliffhanger.Observer.Set.{
  ComponentSet, new_set, add_device, update_device, delete_device, add_thing, update_thing,
  delete_thing, add_room, update_room, delete_room, add_area, update_area, delete_area, get_devices,
  get_things, get_rooms, get_areas,
}

-- `newComponentEvent` and `newRefreshEvent` of prime/observer/event.go
pub data Event : Type 0 where
  component_event : String → String → ℤ → Event
  refresh_event : List String → Event

-- the method that is registered for a component
pub data Strategy : Type 0 where
  on_device on_thing on_room on_area : Strategy

pub record Observer : Type 0 where
  pub components : List String
  pub strategies : Dict Strategy
  pub refresh_interval : Duration
  pub refreshed : Bool
  pub last_refresh : Time
  pub set : ComponentSet
  pub published : List Event

-- `panic` is the use of a nil pointer.
pub data Result {ℓ} (A : Type ℓ) : Type ℓ where
  ok : A → Result A
  failed : Result A
  panic : Result A

unfoldable pub strategy_of : String → Option Strategy
strategy_of c =
    if str_eq c component_device
    then some on_device
    else if str_eq c component_thing
    then some on_thing
    else if str_eq c component_room
    then some on_room
    else if str_eq c component_area
    then some on_area
    else none

-- the loop of `New`; `none` is the error for a component that is not supported
unfoldable pub register : List String → Dict Strategy → Option (Dict Strategy)
register [] m = some m
register (c ∷ rest) m = elim (strategy_of c) [ none ↦ none | some s ↦ register rest (insert c s m) ]

abbrev pub new_observer : Duration → List String → Dict Strategy → Observer
new_observer interval components m = record {
  components = components;
  strategies = m;
  refresh_interval = interval;
  refreshed = false;
  last_refresh = zero_time;
  set = new_set none;
  published = [];
}

-- `New`
unfoldable pub new : Duration → List String → Option Observer
new interval components = elim (register components []) [
  | none ↦ none
  | some m ↦ some (new_observer interval components m)
]

unfoldable pub publish : Event → Observer → Observer
publish ev o = record o { published = o.published ++ ev ∷ [] }

-- the three cases of a method: a value is used, a nil pointer is dereferenced, an error is returned
abbrev pub with_item : Fetched → (Item → Observer) → Observer → Observer × Result (Unit {0})
with_item (got x) f o = (f x, ok tt)
with_item nil_item f o = (o, panic)
with_item unmarshal_error f o = (o, failed)

abbrev pub with_id : Option ℤ → (ℤ → Observer) → Observer → Observer × Result (Unit {0})
with_id (some i) f o = (f i, ok tt)
with_id none f o = (o, failed)

-- The body that the four methods below share; they differ in the kind of component.
unfoldable pub apply_command :
    Notify
    → Fetched
    → (Item → ComponentSet → ComponentSet)
    → (Item → ComponentSet → ComponentSet)
    → (ℤ → ComponentSet → ComponentSet)
    → Observer
    → Observer × Result (Unit {0})
apply_command n fetched add edit delete o =
    let event = λ (i : ℤ). component_event n.component n.cmd i in
    if str_eq n.cmd cmd_add
    then with_item fetched (λ x. publish (event x.id) (record o { set = add x o.set })) o
    else if str_eq n.cmd cmd_edit
    then with_item fetched (λ x. publish (event x.id) (record o { set = edit x o.set })) o
    else if str_eq n.cmd cmd_delete
    then with_id (parse_integer_id n.notify_id)
        (λ i. publish (event i) (record o { set = delete i o.set })) o
    else (o, ok tt)

unfoldable pub on_device_update : Notify → Observer → Observer × Result (Unit {0})
on_device_update n o = apply_command n (get_device n) add_device update_device delete_device o

unfoldable pub on_thing_update : Notify → Observer → Observer × Result (Unit {0})
on_thing_update n o = apply_command n (get_thing n) add_thing update_thing delete_thing o

unfoldable pub on_room_update : Notify → Observer → Observer × Result (Unit {0})
on_room_update n o = apply_command n (get_room n) add_room update_room delete_room o

unfoldable pub on_area_update : Notify → Observer → Observer × Result (Unit {0})
on_area_update n o = apply_command n (get_area n) add_area update_area delete_area o

unfoldable pub run_strategy : Strategy → Notify → Observer → Observer × Result (Unit {0})
run_strategy on_device n o = on_device_update n o
run_strategy on_thing n o = on_thing_update n o
run_strategy on_room n o = on_room_update n o
run_strategy on_area n o = on_area_update n o

-- A failed update asks for a refresh.
abbrev pub after_update : Observer × Result (Unit {0}) → Observer × Result (Unit {0})
after_update (o, ok u) = (o, ok u)
after_update (o, failed) = (record o { refreshed = false }, failed)
after_update (o, panic) = (o, panic)

-- `Update`, with the test of `isComponentObserved`
unfoldable pub update : Notify → Observer → Observer × Result (Unit {0})
update n o = elim (lookup n.component o.strategies) [
  | none ↦ (o, ok tt)
  | some s ↦ after_update (run_strategy s n o)
]

unfoldable pub is_refresh_required : Time → Observer → Bool
is_refresh_required now o =
    if not o.refreshed || is_zero o.last_refresh
    then true
    else ltb_ℤ o.refresh_interval (since now o.last_refresh)

-- The client's answer: `none` is an error, `some none` a nil set.
abbrev pub Answer : Type 0
Answer = Option (Option ComponentSet)

unfoldable pub take_answer : Time → Answer → Observer → Observer × Result (Unit {0})
take_answer done none o = (o, failed)
take_answer done (some s) o = (
  publish (refresh_event o.components)
      (record o { set = new_set s; refreshed = true; last_refresh = done }),
  ok tt,
)

unfoldable pub do_refresh : Bool → Time → Time → Answer → Observer → Observer × Result (Unit {0})
do_refresh force now done answer o =
    if not force && not (is_refresh_required now o) then (o, ok tt) else take_answer done answer o

abbrev pub read {ℓ} :
    {A : Type ℓ} → (ComponentSet → A) → Observer × Result (Unit {0}) → Observer × Result A
read f (o, ok _) = (o, ok (f o.set))
read f (o, failed) = (o, failed)
read f (o, panic) = (o, panic)

unfoldable pub get_devices_of : Time → Time → Answer → Observer → Observer × Result (List Item)
get_devices_of now done answer o = read get_devices (do_refresh false now done answer o)

unfoldable pub get_things_of : Time → Time → Answer → Observer → Observer × Result (List Item)
get_things_of now done answer o = read get_things (do_refresh false now done answer o)

unfoldable pub get_rooms_of : Time → Time → Answer → Observer → Observer × Result (List Item)
get_rooms_of now done answer o = read get_rooms (do_refresh false now done answer o)

unfoldable pub get_areas_of : Time → Time → Answer → Observer → Observer × Result (List Item)
get_areas_of now done answer o = read get_areas (do_refresh false now done answer o)
