-- ===== src/Observer/Set.antt =====
-- prime/observer/set.go: the methods on the set of components, one group for each kind.
use cliffhanger.Prelude.{ℕ, Option, none, some, List, [], nat_eq, string_eq}
use cliffhanger.Prelude.Int.{ℤ, int_eq}
use cliffhanger.Observer.Items.{find_index, add_item, update_item, delete_item}
use cliffhanger.Observer.Notify.{Item}

pub record ComponentSet : Type 0 where
  pub devices : List Item
  pub things : List Item
  pub rooms : List Item
  pub areas : List Item

-- `newSet`: no set given means an empty one
unfoldable pub new_set : Option ComponentSet → ComponentSet
new_set none = record { devices = []; things = []; rooms = []; areas = [] }
new_set (some s) = s

abbrev pub item_id : Item → ℤ
item_id x = x.id

unfoldable pub get_devices : ComponentSet → List Item
get_devices s = s.devices

unfoldable pub find_device : ℤ → ComponentSet → Option ℕ
find_device id s = find_index item_id id s.devices

unfoldable pub add_device : Item → ComponentSet → ComponentSet
add_device x s = record s { devices = add_item item_id x s.devices }

unfoldable pub update_device : Item → ComponentSet → ComponentSet
update_device x s = record s { devices = update_item item_id x s.devices }

unfoldable pub delete_device : ℤ → ComponentSet → ComponentSet
delete_device id s = record s { devices = delete_item item_id id s.devices }

unfoldable pub get_things : ComponentSet → List Item
get_things s = s.things

unfoldable pub find_thing : ℤ → ComponentSet → Option ℕ
find_thing id s = find_index item_id id s.things

unfoldable pub add_thing : Item → ComponentSet → ComponentSet
add_thing x s = record s { things = add_item item_id x s.things }

unfoldable pub update_thing : Item → ComponentSet → ComponentSet
update_thing x s = record s { things = update_item item_id x s.things }

unfoldable pub delete_thing : ℤ → ComponentSet → ComponentSet
delete_thing id s = record s { things = delete_item item_id id s.things }

unfoldable pub get_rooms : ComponentSet → List Item
get_rooms s = s.rooms

unfoldable pub find_room : ℤ → ComponentSet → Option ℕ
find_room id s = find_index item_id id s.rooms

unfoldable pub add_room : Item → ComponentSet → ComponentSet
add_room x s = record s { rooms = add_item item_id x s.rooms }

unfoldable pub update_room : Item → ComponentSet → ComponentSet
update_room x s = record s { rooms = update_item item_id x s.rooms }

unfoldable pub delete_room : ℤ → ComponentSet → ComponentSet
delete_room id s = record s { rooms = delete_item item_id id s.rooms }

unfoldable pub get_areas : ComponentSet → List Item
get_areas s = s.areas

unfoldable pub find_area : ℤ → ComponentSet → Option ℕ
find_area id s = find_index item_id id s.areas

unfoldable pub add_area : Item → ComponentSet → ComponentSet
add_area x s = record s { areas = add_item item_id x s.areas }

unfoldable pub update_area : Item → ComponentSet → ComponentSet
update_area x s = record s { areas = update_item item_id x s.areas }

unfoldable pub delete_area : ℤ → ComponentSet → ComponentSet
delete_area id s = record s { areas = delete_item item_id id s.areas }
