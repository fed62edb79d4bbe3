-- ===== src/Observer/Laws/Sound.antt =====
-- The invariant of the observer of prime/observer/observer.go: IDs are not repeated within a kind, and
-- each registered component is handled by its own method.
use cliffhanger.Prelude.{
  String, ◌≡◌, ◌≢◌, inl, inr, Bool, true, false, not, ◌&&◌, Option, none, some, List, [], ◌∷◌,
  arith, str_eq, eq_iff, if◌then◌else◌, Bool-cases, Option-cases, nat_eq, string_eq,
}
use cliffhanger.Prelude.Int.{ℤ, int_eq, Time, Duration}
use cliffhanger.Prelude.Dict.{Dict, lookup, insert, lookup-insert}
use mathlib.Core.Path.{subst}
use cliffhanger.Observer.Items.Laws.{
  IsDistinct, add_item-IsDistinct, update_item-IsDistinct, delete_item-IsDistinct,
}
use cliffhanger.Observer.Notify.{
  Item, Notify, cmd_add, cmd_edit, cmd_delete, parse_integer_id, Fetched, got, nil_item,
  unmarshal_error, get_device, get_thing, get_room, get_area,
}
use cliffhanger.Observer.Set.{
  ComponentSet, item_id, new_set, add_device, update_device, delete_device, add_thing, update_thing,
  delete_thing, add_room, update_room, delete_room, add_area, update_area, delete_area,
}
use cliffhanger.Observer.Update.{
  Observer, Strategy, on_device, on_thing, on_room, on_area, Result, ok, failed, panic, strategy_of,
  register, new_observer, new, publish, run_strategy, update, after_update, apply_command,
  on_device_update, on_thing_update, on_room_update, on_area_update, is_refresh_required,
  take_answer, do_refresh, Event, with_item, with_id,
}

pub record IsDistinctSet (s : ComponentSet) : Type 0 where
  pub devices : IsDistinct item_id s.devices
  pub things : IsDistinct item_id s.things
  pub rooms : IsDistinct item_id s.rooms
  pub areas : IsDistinct item_id s.areas

abbrev pub IsWired : Dict Strategy → Type 0
IsWired m = (c : String) (s : Strategy) → lookup c m ≡ some s → strategy_of c ≡ some s

pub record IsSound (o : Observer) : Type 0 where
  pub distinct : IsDistinctSet o.set
  pub wired : IsWired o.strategies

insert-IsWired :
    (d : String) (t : Strategy) (m : Dict Strategy)
    → strategy_of d ≡ some t
    → IsWired m
    → IsWired (insert d t m)
insert-IsWired d t m q h c s l = ground (arith, lookup-insert d c t m, h c s, eq_iff d c, q, l)

register-IsWired :
    (cs : List String) (m w : Dict Strategy) → IsWired m → register cs m ≡ some w → IsWired w
unfolding register
register-IsWired [] m w h e = λ c s l. h c s (ground (arith, l, e))
register-IsWired (d ∷ rest) m w h e = elim (Option-cases (strategy_of d)) [
  | inl n ↦ absurd (impossible (rw (n, register) at e))
  | inr (t, q) ↦
      register-IsWired rest (insert d t m) w (insert-IsWired d t m q h) (rw (q, register) at e)
]
  where
    impossible : ¬ (none ≡ some w)
    impossible p = cc

-- A new observer, for whatever components, is sound.
pub new-IsSound :
    (interval : Duration) (components : List String) (o : Observer)
    → new interval components ≡ some o
    → IsSound o
unfolding new
new-IsSound interval components o h = elim (Option-cases (register components [])) [
  | inl n ↦ absurd (impossible (rw (n, new) at h))
  | inr (m, q) ↦ made m q (rw (q, new) at h)
]
  where
    impossible : ¬ (none ≡ some o)
    impossible p = cc

    empty_set : IsDistinctSet (new_set none)
    empty_set = unfold new_set in record { devices = tt; things = tt; rooms = tt; areas = tt }

    none_wired : IsWired []
    none_wired c t l = absurd (unfold lookup in (cc))

    same :
        {m : Dict Strategy}
        → some (new_observer interval components m) ≡ some o
        → new_observer interval components m ≡ o
    same p = cc

    made :
        (m : Dict Strategy)
        → register components [] ≡ some m
        → some (new_observer interval components m) ≡ some o
        → IsSound o
    made m q p =
        subst (λ x. IsSound x) (same p)
          (record { distinct = empty_set; wired = register-IsWired components [] m none_wired q })

-- A sound observer never answers a notification by a panic: each method is given its own component.
pub update-ne-panic : (n : Notify) (o : Observer) → IsSound o → (update n o).1 ≢ panic
unfolding update run_strategy apply_command on_device_update on_thing_update on_room_update
    on_area_update get_device get_thing get_room get_area strategy_of
update-ne-panic n o s = elim (Option-cases (lookup n.component o.strategies)) [
  | inl h ↦ rw (h, update) (λ p. cc)
  | inr (t, h) ↦ rw (h, update) (own t (s.wired n.component t h))
]
  where
    own :
        (t : Strategy)
        → strategy_of n.component ≡ some t
        → (after_update (run_strategy t n o)).1 ≢ panic
    own on_device q = ground arith
    own on_thing q = ground arith
    own on_room q = ground arith
    own on_area q = ground arith

add_device-IsDistinctSet :
    (x : Item) (s : ComponentSet) → IsDistinctSet s → IsDistinctSet (add_device x s)
unfolding add_device
add_device-IsDistinctSet x s d = record {
  devices = add_item-IsDistinct item_id x s.devices d.devices;
  things = d.things;
  rooms = d.rooms;
  areas = d.areas;
}

update_device-IsDistinctSet :
    (x : Item) (s : ComponentSet) → IsDistinctSet s → IsDistinctSet (update_device x s)
unfolding update_device
update_device-IsDistinctSet x s d = record {
  devices = update_item-IsDistinct item_id x s.devices d.devices;
  things = d.things;
  rooms = d.rooms;
  areas = d.areas;
}

delete_device-IsDistinctSet :
    (x : ℤ) (s : ComponentSet) → IsDistinctSet s → IsDistinctSet (delete_device x s)
unfolding delete_device
delete_device-IsDistinctSet x s d = record {
  devices = delete_item-IsDistinct item_id x s.devices d.devices;
  things = d.things;
  rooms = d.rooms;
  areas = d.areas;
}

add_thing-IsDistinctSet :
    (x : Item) (s : ComponentSet) → IsDistinctSet s → IsDistinctSet (add_thing x s)
unfolding add_thing
add_thing-IsDistinctSet x s d = record {
  devices = d.devices;
  things = add_item-IsDistinct item_id x s.things d.things;
  rooms = d.rooms;
  areas = d.areas;
}

update_thing-IsDistinctSet :
    (x : Item) (s : ComponentSet) → IsDistinctSet s → IsDistinctSet (update_thing x s)
unfolding update_thing
update_thing-IsDistinctSet x s d = record {
  devices = d.devices;
  things = update_item-IsDistinct item_id x s.things d.things;
  rooms = d.rooms;
  areas = d.areas;
}

delete_thing-IsDistinctSet :
    (x : ℤ) (s : ComponentSet) → IsDistinctSet s → IsDistinctSet (delete_thing x s)
unfolding delete_thing
delete_thing-IsDistinctSet x s d = record {
  devices = d.devices;
  things = delete_item-IsDistinct item_id x s.things d.things;
  rooms = d.rooms;
  areas = d.areas;
}

add_room-IsDistinctSet :
    (x : Item) (s : ComponentSet) → IsDistinctSet s → IsDistinctSet (add_room x s)
unfolding add_room
add_room-IsDistinctSet x s d = record {
  devices = d.devices;
  things = d.things;
  rooms = add_item-IsDistinct item_id x s.rooms d.rooms;
  areas = d.areas;
}

update_room-IsDistinctSet :
    (x : Item) (s : ComponentSet) → IsDistinctSet s → IsDistinctSet (update_room x s)
unfolding update_room
update_room-IsDistinctSet x s d = record {
  devices = d.devices;
  things = d.things;
  rooms = update_item-IsDistinct item_id x s.rooms d.rooms;
  areas = d.areas;
}

delete_room-IsDistinctSet :
    (x : ℤ) (s : ComponentSet) → IsDistinctSet s → IsDistinctSet (delete_room x s)
unfolding delete_room
delete_room-IsDistinctSet x s d = record {
  devices = d.devices;
  things = d.things;
  rooms = delete_item-IsDistinct item_id x s.rooms d.rooms;
  areas = d.areas;
}

add_area-IsDistinctSet :
    (x : Item) (s : ComponentSet) → IsDistinctSet s → IsDistinctSet (add_area x s)
unfolding add_area
add_area-IsDistinctSet x s d = record {
  devices = d.devices;
  things = d.things;
  rooms = d.rooms;
  areas = add_item-IsDistinct item_id x s.areas d.areas;
}

update_area-IsDistinctSet :
    (x : Item) (s : ComponentSet) → IsDistinctSet s → IsDistinctSet (update_area x s)
unfolding update_area
update_area-IsDistinctSet x s d = record {
  devices = d.devices;
  things = d.things;
  rooms = d.rooms;
  areas = update_item-IsDistinct item_id x s.areas d.areas;
}

delete_area-IsDistinctSet :
    (x : ℤ) (s : ComponentSet) → IsDistinctSet s → IsDistinctSet (delete_area x s)
unfolding delete_area
delete_area-IsDistinctSet x s d = record {
  devices = d.devices;
  things = d.things;
  rooms = d.rooms;
  areas = delete_item-IsDistinct item_id x s.areas d.areas;
}

IsSoundAfter : Observer × Result (Unit {0}) → Type 0
IsSoundAfter r = IsSound r.0

if_keeps :
    (b : Bool) (x y : Observer × Result (Unit {0}))
    → IsSoundAfter x
    → IsSoundAfter y
    → IsSoundAfter (if b then x else y)
if_keeps true x y p q = p
if_keeps false x y p q = q

with_item_keeps :
    (r : Fetched) (f : Item → Observer) (o : Observer)
    → IsSound o
    → ((x : Item) → IsSound (f x))
    → IsSoundAfter (with_item r f o)
unfolding IsSoundAfter
with_item_keeps (got x) f o s h = h x
with_item_keeps nil_item f o s h = s
with_item_keeps unmarshal_error f o s h = s

with_id_keeps :
    (r : Option ℤ) (f : ℤ → Observer) (o : Observer)
    → IsSound o
    → ((x : ℤ) → IsSound (f x))
    → IsSoundAfter (with_id r f o)
unfolding IsSoundAfter
with_id_keeps (some x) f o s h = h x
with_id_keeps none f o s h = s

publish_keeps :
    (ev : Event) (o : Observer) (c : ComponentSet)
    → IsSound o
    → IsDistinctSet c
    → IsSound (publish ev (record o { set = c }))
unfolding publish
publish_keeps ev o c s d = record { distinct = d; wired = s.wired }

apply_command-IsSound :
    (n : Notify) (fetched : Fetched) (add edit : Item → ComponentSet → ComponentSet)
    (delete : ℤ → ComponentSet → ComponentSet) (o : Observer)
    → ((x : Item) → IsDistinctSet (add x o.set))
    → ((x : Item) → IsDistinctSet (edit x o.set))
    → ((i : ℤ) → IsDistinctSet (delete i o.set))
    → IsSound o
    → IsSoundAfter (apply_command n fetched add edit delete o)
unfolding apply_command
apply_command-IsSound n fetched add edit delete o ha he hd s =
    elim (Bool-cases (str_eq n.cmd cmd_add)) [
      | inl p ↦
          rw (p, apply_command)
            (with_item_keeps fetched _ o s (λ x. publish_keeps _ o (add x o.set) s (ha x)))
      | inr p ↦ elim (Bool-cases (str_eq n.cmd cmd_edit)) [
        | inl q ↦
            rw (p, q, apply_command)
              (with_item_keeps fetched _ o s (λ x. publish_keeps _ o (edit x o.set) s (he x)))
        | inr q ↦ elim (Bool-cases (str_eq n.cmd cmd_delete)) [
          | inl r ↦
              rw (p, q, r, apply_command)
                (with_id_keeps (parse_integer_id n.notify_id) _ o s
                  (λ i. publish_keeps _ o (delete i o.set) s (hd i)))
          | inr r ↦ rw (p, q, r, apply_command) (unfold IsSoundAfter in s)
        ]
      ]
    ]

run_strategy-IsSound :
    (t : Strategy) (n : Notify) (o : Observer) → IsSound o → IsSoundAfter (run_strategy t n o)
unfolding run_strategy on_device_update on_thing_update on_room_update on_area_update
run_strategy-IsSound on_device n o s =
    apply_command-IsSound n (get_device n) add_device update_device delete_device o
      (λ x. add_device-IsDistinctSet x o.set s.distinct)
      (λ x. update_device-IsDistinctSet x o.set s.distinct)
      (λ i. delete_device-IsDistinctSet i o.set s.distinct) s
run_strategy-IsSound on_thing n o s =
    apply_command-IsSound n (get_thing n) add_thing update_thing delete_thing o
      (λ x. add_thing-IsDistinctSet x o.set s.distinct)
      (λ x. update_thing-IsDistinctSet x o.set s.distinct)
      (λ i. delete_thing-IsDistinctSet i o.set s.distinct) s
run_strategy-IsSound on_room n o s =
    apply_command-IsSound n (get_room n) add_room update_room delete_room o
      (λ x. add_room-IsDistinctSet x o.set s.distinct)
      (λ x. update_room-IsDistinctSet x o.set s.distinct)
      (λ i. delete_room-IsDistinctSet i o.set s.distinct) s
run_strategy-IsSound on_area n o s =
    apply_command-IsSound n (get_area n) add_area update_area delete_area o
      (λ x. add_area-IsDistinctSet x o.set s.distinct)
      (λ x. update_area-IsDistinctSet x o.set s.distinct)
      (λ i. delete_area-IsDistinctSet i o.set s.distinct) s

after_update_keeps :
    (o : Observer) (r : Result (Unit {0})) → IsSound o → IsSound (after_update (o, r)).0
after_update_keeps o (ok u) s = s
after_update_keeps o failed s = record { distinct = s.distinct; wired = s.wired }
after_update_keeps o panic s = s

-- Every notification, handled or failed, keeps the IDs of each kind distinct and the methods wired,
-- where they were so before.
pub update-IsSound : (n : Notify) (o : Observer) → IsSound o → IsSound (update n o).0
unfolding update
update-IsSound n o s = elim (Option-cases (lookup n.component o.strategies)) [
  | inl h ↦ rw (h, update) s
  | inr (t, h) ↦
      rw (h, update)
        (after_update_keeps (run_strategy t n o).0 (run_strategy t n o).1
          (unfold IsSoundAfter in run_strategy-IsSound t n o s))
]

-- A refresh keeps the observer sound if the IDs of each kind in the client's answer are distinct.
pub do_refresh-IsSound :
    (force : Bool) (now done : Time) (c : ComponentSet) (o : Observer)
    → IsSound o
    → IsDistinctSet c
    → IsSound (do_refresh force now done (some (some c)) o).0
unfolding do_refresh IsSoundAfter
do_refresh-IsSound force now done c o s d =
    if_keeps (not force && not (is_refresh_required now o)) (o, ok tt)
      (take_answer done (some (some c)) o) s refreshed
  where
    refreshed : IsSound (take_answer done (some (some c)) o).0
    refreshed = unfold take_answer publish new_set in record { distinct = d; wired = s.wired }
