-- ===== src/Observer/Notify.antt =====
-- What prime/observer reads of a notification (prime/model.go and prime/type.go). A device, thing, room
-- or area is its ID and the rest, which the observer carries along. What `json.Unmarshal` makes of the
-- raw parameter and `strconv.Atoi` of a text stands in the notification.
use cliffhanger.Prelude.{String, Option, none, some, str_eq, if◌then◌else◌, nat_eq, string_eq}
use cliffhanger.Prelude.Int.{ℤ, int_eq}

pub record Item : Type 0 where
  pub id : ℤ
  pub rest : String

-- the dynamic types that `ParseIntegerID` tells apart: a float with its whole part, a text with the
-- outcome of `strconv.Atoi`
pub data NotifyId : Type 0 where
  nil : NotifyId
  int_id int64_id float_id : ℤ → NotifyId
  text_id : Option ℤ → NotifyId
  other_id : NotifyId

-- `param` is the outcome of `json.Unmarshal` on the raw parameter, `none` an error.
pub record Notify : Type 0 where
  pub component : String
  pub cmd : String
  pub notify_id : NotifyId
  pub param : Option Item

abbrev pub component_device : String
component_device = "device"

abbrev pub component_thing : String
component_thing = "thing"

abbrev pub component_room : String
component_room = "room"

abbrev pub component_area : String
component_area = "area"

abbrev pub cmd_edit : String
cmd_edit = "edit"

abbrev pub cmd_delete : String
cmd_delete = "delete"

abbrev pub cmd_add : String
cmd_add = "add"

unfoldable pub parse_integer_id : NotifyId → Option ℤ
parse_integer_id nil = none
parse_integer_id (int_id i) = some i
parse_integer_id (int64_id i) = some i
parse_integer_id (float_id i) = some i
parse_integer_id (text_id parsed) = parsed
parse_integer_id other_id = none

-- What `GetDevice` and its like return: a value, `nil` with no error, or an error.
pub data Fetched : Type 0 where
  got : Item → Fetched
  nil_item : Fetched
  unmarshal_error : Fetched

abbrev pub unmarshal : Option Item → Fetched
unmarshal none = unmarshal_error
unmarshal (some x) = got x

unfoldable pub get_device : Notify → Fetched
get_device n = if str_eq n.component component_device then unmarshal n.param else nil_item

unfoldable pub get_thing : Notify → Fetched
get_thing n = if str_eq n.component component_thing then unmarshal n.param else nil_item

unfoldable pub get_room : Notify → Fetched
get_room n = if str_eq n.component component_room then unmarshal n.param else nil_item

unfoldable pub get_area : Notify → Fetched
get_area n = if str_eq n.component component_area then unmarshal n.param else nil_item
