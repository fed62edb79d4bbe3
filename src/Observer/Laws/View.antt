-- ===== src/Observer/Laws/View.antt =====
-- The observer of prime/observer/observer.go implements four finite maps from IDs to components.
use cliffhanger.Prelude.{
  String, ◌≡◌, refl, inl, inr, Bool, true, false, Option, none, some, List, arith, str_eq,
  if◌then◌else◌, Bool-cases, nat_eq, string_eq,
}
use cliffhanger.Prelude.Int.{ℤ, eqb_ℤ, int_eq}
use cliffhanger.Prelude.Dict.{lookup}
use cliffhanger.Observer.Items.{add_item, update_item, delete_item}
use cliffhanger.Observer.Items.Laws.{at, IsDistinct, at-add_item, at-update_item, at-delete_item}
use cliffhanger.Observer.Notify.{
  Item, Notify, component_device, component_thing, component_room, component_area, cmd_add,
  cmd_edit, cmd_delete, parse_integer_id, get_device, get_thing, get_room, get_area,
}
use cliffhanger.Observer.Set.{
  ComponentSet, item_id, add_device, update_device, delete_device, add_thing, update_thing,
  delete_thing, add_room, update_room, delete_room, add_area, update_area, delete_area,
}
use cliffhanger.Observer.Update.{
  Observer, Strategy, on_device, on_thing, on_room, on_area, strategy_of, publish, run_strategy,
  update, after_update, apply_command, on_device_update, on_thing_update, on_room_update,
  on_area_update,
}
use cliffhanger.Observer.Laws.Sound.{IsSound}

-- The components of a kind, by ID.
unfoldable pub view : Strategy → ComponentSet → ℤ → Option Item
view on_device s id = at item_id id s.devices
view on_thing s id = at item_id id s.things
view on_room s id = at item_id id s.rooms
view on_area s id = at item_id id s.areas

-- What a notification means for a map: adding keeps a component that is there, editing replaces it or
-- adds it, deleting takes it away; what cannot be read, and any other command, changes nothing.
unfoldable pub changed : String → Option Item → Option ℤ → (ℤ → Option Item) → ℤ → Option Item
changed cmd p k m id =
    if str_eq cmd cmd_add
    then elim p [
      | none ↦ m id
      | some x ↦ elim (m x.id) [ none ↦ (if eqb_ℤ id x.id then some x else m id) | some _ ↦ m id ]
    ]
    else if str_eq cmd cmd_edit
    then elim p [ none ↦ m id | some x ↦ (if eqb_ℤ id x.id then some x else m id) ]
    else if str_eq cmd cmd_delete
    then elim k [ none ↦ m id | some j ↦ (if eqb_ℤ id j then none else m id) ]
    else m id

-- What the shared body does to the slice of its kind.
list_changed : String → Option Item → Option ℤ → List Item → List Item
list_changed cmd p k xs =
    if str_eq cmd cmd_add
    then elim p [ none ↦ xs | some x ↦ add_item item_id x xs ]
    else if str_eq cmd cmd_edit
    then elim p [ none ↦ xs | some x ↦ update_item item_id x xs ]
    else if str_eq cmd cmd_delete
    then elim k [ none ↦ xs | some j ↦ delete_item item_id j xs ]
    else xs

at-list_changed :
    (cmd : String) (p : Option Item) (k : Option ℤ) (xs : List Item) (id : ℤ)
    → IsDistinct item_id xs
    → at item_id id (list_changed cmd p k xs) ≡ changed cmd p k (λ j. at item_id j xs) id
unfolding list_changed changed
at-list_changed cmd p k xs id d = elim (Bool-cases (str_eq cmd cmd_add)) [
  | inl a ↦ rw (a, list_changed, changed) (added p)
  | inr a ↦ elim (Bool-cases (str_eq cmd cmd_edit)) [
    | inl b ↦ rw (a, b, list_changed, changed) (edited p)
    | inr b ↦ elim (Bool-cases (str_eq cmd cmd_delete)) [
      | inl c ↦ rw (a, b, c, list_changed, changed) (deleted k)
      | inr c ↦ rw (a, b, c, list_changed, changed)
    ]
  ]
]
  where
    added :
        (q : Option Item)
        → at item_id id (elim q [ none ↦ xs | some x ↦ add_item item_id x xs ]) ≡ elim q [
          | none ↦ at item_id id xs
          | some x ↦ elim (at item_id x.id xs) [
            | none ↦ (if eqb_ℤ id x.id then some x else at item_id id xs)
            | some _ ↦ at item_id id xs
          ]
        ]
    added none = refl
    added (some x) = at-add_item item_id id x xs

    edited :
        (q : Option Item)
        → at item_id id (elim q [ none ↦ xs | some x ↦ update_item item_id x xs ]) ≡ elim q [
          | none ↦ at item_id id xs
          | some x ↦ (if eqb_ℤ id x.id then some x else at item_id id xs)
        ]
    edited none = refl
    edited (some x) = at-update_item item_id id x xs

    deleted :
        (q : Option ℤ)
        → at item_id id (elim q [ none ↦ xs | some j ↦ delete_item item_id j xs ]) ≡ elim q [
          | none ↦ at item_id id xs
          | some j ↦ (if eqb_ℤ id j then none else at item_id id xs)
        ]
    deleted none = refl
    deleted (some j) = at-delete_item item_id id j xs d

set-on_device_update :
    (n : Notify) (o : Observer)
    → str_eq n.component component_device ≡ true
    → (after_update (on_device_update n o)).0.set ≡ record o.set {
      devices = list_changed n.cmd n.param (parse_integer_id n.notify_id) o.set.devices;
    }
unfolding on_device_update apply_command get_device publish add_device update_device delete_device
    list_changed
set-on_device_update n o h = ground arith

set-on_thing_update :
    (n : Notify) (o : Observer)
    → str_eq n.component component_thing ≡ true
    → (after_update (on_thing_update n o)).0.set ≡ record o.set {
      things = list_changed n.cmd n.param (parse_integer_id n.notify_id) o.set.things;
    }
unfolding on_thing_update apply_command get_thing publish add_thing update_thing delete_thing
    list_changed
set-on_thing_update n o h = ground arith

set-on_room_update :
    (n : Notify) (o : Observer)
    → str_eq n.component component_room ≡ true
    → (after_update (on_room_update n o)).0.set ≡ record o.set {
      rooms = list_changed n.cmd n.param (parse_integer_id n.notify_id) o.set.rooms;
    }
unfolding on_room_update apply_command get_room publish add_room update_room delete_room
    list_changed
set-on_room_update n o h = ground arith

set-on_area_update :
    (n : Notify) (o : Observer)
    → str_eq n.component component_area ≡ true
    → (after_update (on_area_update n o)).0.set ≡ record o.set {
      areas = list_changed n.cmd n.param (parse_integer_id n.notify_id) o.set.areas;
    }
unfolding on_area_update apply_command get_area publish add_area update_area delete_area
    list_changed
set-on_area_update n o h = ground arith

unfoldable pub same_kind : Strategy → Strategy → Bool
same_kind on_device on_device = true
same_kind on_thing on_thing = true
same_kind on_room on_room = true
same_kind on_area on_area = true
same_kind _ _ = false

device-view :
    (n : Notify) (o : Observer) (u : Strategy) (id : ℤ)
    → IsSound o
    → strategy_of n.component ≡ some on_device
    → view u (after_update (on_device_update n o)).0.set id ≡ (
        if same_kind on_device u
        then changed n.cmd n.param (parse_integer_id n.notify_id) (view on_device o.set) id
        else view u o.set id)
unfolding view same_kind
device-view n o u id s q = rw (set-on_device_update n o (named q)) (each u)
  where
    named : strategy_of n.component ≡ some on_device → str_eq n.component component_device ≡ true
    named e = unfold strategy_of in ground arith

    each :
        (w : Strategy)
        → view w
            (record o.set {
              devices = list_changed n.cmd n.param (parse_integer_id n.notify_id) o.set.devices;
            })
            id
          ≡ (if same_kind on_device w
              then changed n.cmd n.param (parse_integer_id n.notify_id) (view on_device o.set) id
              else view w o.set id)
    each on_device =
        at-list_changed n.cmd n.param (parse_integer_id n.notify_id) o.set.devices id
          s.distinct.devices
    each on_thing = refl
    each on_room = refl
    each on_area = refl

thing-view :
    (n : Notify) (o : Observer) (u : Strategy) (id : ℤ)
    → IsSound o
    → strategy_of n.component ≡ some on_thing
    → view u (after_update (on_thing_update n o)).0.set id ≡ (
        if same_kind on_thing u
        then changed n.cmd n.param (parse_integer_id n.notify_id) (view on_thing o.set) id
        else view u o.set id)
unfolding view same_kind
thing-view n o u id s q = rw (set-on_thing_update n o (named q)) (each u)
  where
    named : strategy_of n.component ≡ some on_thing → str_eq n.component component_thing ≡ true
    named e = unfold strategy_of in ground arith

    each :
        (w : Strategy)
        → view w
            (record o.set {
              things = list_changed n.cmd n.param (parse_integer_id n.notify_id) o.set.things;
            })
            id
          ≡ (if same_kind on_thing w
              then changed n.cmd n.param (parse_integer_id n.notify_id) (view on_thing o.set) id
              else view w o.set id)
    each on_device = refl
    each on_thing =
        at-list_changed n.cmd n.param (parse_integer_id n.notify_id) o.set.things id
          s.distinct.things
    each on_room = refl
    each on_area = refl

room-view :
    (n : Notify) (o : Observer) (u : Strategy) (id : ℤ)
    → IsSound o
    → strategy_of n.component ≡ some on_room
    → view u (after_update (on_room_update n o)).0.set id ≡ (
        if same_kind on_room u
        then changed n.cmd n.param (parse_integer_id n.notify_id) (view on_room o.set) id
        else view u o.set id)
unfolding view same_kind
room-view n o u id s q = rw (set-on_room_update n o (named q)) (each u)
  where
    named : strategy_of n.component ≡ some on_room → str_eq n.component component_room ≡ true
    named e = unfold strategy_of in ground arith

    each :
        (w : Strategy)
        → view w
            (record o.set {
              rooms = list_changed n.cmd n.param (parse_integer_id n.notify_id) o.set.rooms;
            })
            id
          ≡ (if same_kind on_room w
              then changed n.cmd n.param (parse_integer_id n.notify_id) (view on_room o.set) id
              else view w o.set id)
    each on_device = refl
    each on_thing = refl
    each on_room =
        at-list_changed n.cmd n.param (parse_integer_id n.notify_id) o.set.rooms id s.distinct.rooms
    each on_area = refl

area-view :
    (n : Notify) (o : Observer) (u : Strategy) (id : ℤ)
    → IsSound o
    → strategy_of n.component ≡ some on_area
    → view u (after_update (on_area_update n o)).0.set id ≡ (
        if same_kind on_area u
        then changed n.cmd n.param (parse_integer_id n.notify_id) (view on_area o.set) id
        else view u o.set id)
unfolding view same_kind
area-view n o u id s q = rw (set-on_area_update n o (named q)) (each u)
  where
    named : strategy_of n.component ≡ some on_area → str_eq n.component component_area ≡ true
    named e = unfold strategy_of in ground arith

    each :
        (w : Strategy)
        → view w
            (record o.set {
              areas = list_changed n.cmd n.param (parse_integer_id n.notify_id) o.set.areas;
            })
            id
          ≡ (if same_kind on_area w
              then changed n.cmd n.param (parse_integer_id n.notify_id) (view on_area o.set) id
              else view w o.set id)
    each on_device = refl
    each on_thing = refl
    each on_room = refl
    each on_area =
        at-list_changed n.cmd n.param (parse_integer_id n.notify_id) o.set.areas id s.distinct.areas

-- A notification about an observed component changes the map of its kind, and that of no other kind,
-- as its command, its value and its ID say, in every state in which the IDs of a kind are distinct.
pub update-view :
    (n : Notify) (o : Observer) (t u : Strategy) (id : ℤ)
    → IsSound o
    → lookup n.component o.strategies ≡ some t
    → view u (update n o).0.set id ≡ (
        if same_kind t u
        then changed n.cmd n.param (parse_integer_id n.notify_id) (view t o.set) id
        else view u o.set id)
unfolding update run_strategy
update-view n o on_device u id s h = rw (h, update) (device-view n o u id s (s.wired _ _ h))
update-view n o on_thing u id s h = rw (h, update) (thing-view n o u id s (s.wired _ _ h))
update-view n o on_room u id s h = rw (h, update) (room-view n o u id s (s.wired _ _ h))
update-view n o on_area u id s h = rw (h, update) (area-view n o u id s (s.wired _ _ h))
