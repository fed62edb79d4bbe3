-- ===== src/VirtualMeter/Manager.antt =====
-- adapter/service/virtualmeter/manager.go: the manager of virtual meters. Every method holds its lock. What
-- the adapter, the thing and the database answer, and the clock, are arguments. The registration of things
-- is not part of the model: the topics that have a service are given.
use cliffhanger.Prelude.{
  String, Bool, true, false, not, ◌&&◌, ◌||◌, Option, none, some, List, [], ◌∷◌, str_eq,
  if◌then◌else◌, nat_eq, string_eq, contains,
}
use cliffhanger.Prelude.Int.{ltb_ℤ, int_eq, Time, Duration, since}
use cliffhanger.Prelude.Dict.{Dict}
use cliffhanger.VirtualMeter.{
  Floats, Device, Instants, Access, has_modes, initialised, set_device, delete_device, device_at,
  cleaned, recalculate_energy, report_per_unit,
}

-- the answers of the thing: whether it is found, and whether its update and its report have no error
pub record ThingAnswers : Type 0 where
  pub found : Bool
  pub updates : Bool
  pub reports : Bool

-- what the manager does to a thing
pub data ThingCall : Type 0 where
  add_service remove_service send_inclusion : ThingCall

pub record Manager (F : Type 0) : Type 0 where
  pub virtual_services : List String
  pub storage : Dict (Device F)
  pub recalculation_period : Duration
  pub cleaning_period : Duration

-- the new state, what is done to the thing, and whether there is no error
abbrev pub Change : Type 0 → Type 0
Change F = Manager F × List ThingCall × Bool

module _ {F : Type 0} where
  -- a call of `SetDevice`, and its error
  abbrev pub store : Bool → String → Device F → Manager F → Manager F × Bool
  store writes topic d m =
      let (s, done) = set_device writes topic d m.storage in (record m { storage = s }, done)

  -- the update of a thing and its inclusion report, the last part of `add` and `remove`
  abbrev pub change_thing : ThingAnswers → ThingCall → Manager F → Change F
  change_thing thing change m =
      if thing.updates
      then (m, change ∷ send_inclusion ∷ [], thing.reports)
      else (m, change ∷ [], false)

  -- `modes`; none is the error
  unfoldable pub modes : Bool → String → Manager F → Option (Dict F)
  unfolding device_at
  modes reads topic m = elim (device_at reads topic m.storage) [
    | none ↦ none
    | some d ↦ some d.modes
  ]

  -- `deleteDeviceEntry`, on the device that is stored
  unfoldable pub delete_stored :
      Bool → Time → String → Option (Device F) → Manager F → Manager F × Bool
  unfolding delete_device
  delete_stored writes now topic none m = (m, false)
  delete_stored writes now topic (some d) m =
      if ltb_ℤ m.cleaning_period (since now d.last_time_updated)
      then (let (s, done) = delete_device writes topic m.storage in
          (record m { storage = s }, done))
      else (m, true)

  -- `deleteDeviceEntry`
  unfoldable pub delete_device_entry : Access → Time → String → Manager F → Manager F × Bool
  unfolding delete_stored device_at
  delete_device_entry access now topic m =
      delete_stored access.writes now topic (device_at access.reads topic m.storage) m

  -- one service of `updateDeviceActivity`
  unfoldable pub set_activity :
      Bool → Bool → String → Option (Device F) → Manager F → Manager F × Bool
  unfolding set_device
  set_activity writes active topic none m = (m, false)
  set_activity writes active topic (some d) m =
      if (if active then d.active else not d.active)
      then (m, true)
      else store writes topic (record d { active = active }) m

  -- the loop of `updateDeviceActivity` over the topics of the services of a thing
  unfoldable pub update_device_activity : Access → Bool → List String → Manager F → Manager F × Bool
  unfolding contains device_at set_activity
  update_device_activity access active [] m = (m, true)
  update_device_activity access active (topic ∷ topics) m =
      let (m', done) =
        set_activity access.writes active topic (device_at access.reads topic m.storage) m in
      let rest = update_device_activity access active topics m' in
      let skip = update_device_activity access active topics m in
      if not (contains m.virtual_services topic) then skip else if done then rest else (m', false)

module _ (floats : Floats) where
  -- `add` once the device is read
  unfoldable pub add_to :
      Bool
      → ThingAnswers
      → Instants
      → Time
      → String
      → Dict floats.Float
      → String
      → Device floats.Float
      → Manager floats.Float
      → Change floats.Float
  unfolding recalculate_energy set_device
  add_to writes thing at now topic new_modes unit d m =
      let recalculated = (recalculate_energy floats m.recalculation_period true at d).0 in
      let before = if has_modes d.modes then recalculated else d in
      let (m', done) =
        store writes topic
          (record before { modes = new_modes; unit = unit; last_time_updated = now }) m in
      if not done
      then (m', [], false)
      else if has_modes d.modes
      then (m', [], true)
      else change_thing thing add_service m'

  abbrev pub add_stored :
      Bool
      → ThingAnswers
      → Instants
      → Time
      → String
      → Dict floats.Float
      → String
      → Option (Device floats.Float)
      → Manager floats.Float
      → Change floats.Float
  add_stored writes thing at now topic new_modes unit none m = (m, [], false)
  add_stored writes thing at now topic new_modes unit (some d) m =
      add_to writes thing at now topic new_modes unit d m

  -- `add`
  unfoldable pub add :
      Access
      → ThingAnswers
      → Instants
      → Time
      → String
      → Dict floats.Float
      → String
      → Manager floats.Float
      → Change floats.Float
  unfolding contains device_at add_to
  add access thing at now topic new_modes unit m =
      if not (contains m.virtual_services topic) || not thing.found
      then (m, [], false)
      else add_stored access.writes thing at now topic new_modes unit
          (device_at access.reads topic m.storage) m

  -- `remove`
  unfoldable pub remove_meter :
      Bool → ThingAnswers → Time → String → Manager floats.Float → Change floats.Float
  unfolding contains set_device
  remove_meter writes thing now topic m =
      if not (contains m.virtual_services topic) || not thing.found
      then (m, [], false)
      else let (m', done) = store writes topic (cleaned floats now) m in
        if done then change_thing thing remove_service m' else (m', [], false)

  -- `update` once the device is read
  unfoldable pub update_stored :
      Bool
      → Instants
      → String
      → String
      → floats.Float
      → Option (Device floats.Float)
      → Manager floats.Float
      → Manager floats.Float × Bool
  unfolding initialised recalculate_energy set_device
  update_stored writes at topic mode level none m = (m, false)
  update_stored writes at topic mode level (some d) m =
      let recalculated = (recalculate_energy floats m.recalculation_period true at d).0 in
      if not (initialised d)
      then (m, true)
      else if str_eq d.current_mode mode && floats.same_float d.level level
      then (m, true)
      else store writes topic (record recalculated { level = level; current_mode = mode }) m

  -- `update`
  unfoldable pub update :
      Access
      → Instants
      → String
      → String
      → floats.Float
      → Manager floats.Float
      → Manager floats.Float × Bool
  unfolding device_at update_stored
  update access at topic mode level m =
      update_stored access.writes at topic mode level (device_at access.reads topic m.storage) m

  -- `report` once the device is read; none is the error
  unfoldable pub report_stored :
      Bool
      → Instants
      → String
      → String
      → Option (Device floats.Float)
      → Manager floats.Float
      → Manager floats.Float × Option floats.Float
  unfolding recalculate_energy set_device report_per_unit
  report_stored writes at topic unit none m = (m, none)
  report_stored writes at topic unit (some d) m =
      let (d', updated) = recalculate_energy floats m.recalculation_period false at d in
      let (m', done) = store writes topic d' m in
      if not updated
      then (m, report_per_unit floats d unit)
      else (m', if done then report_per_unit floats d' unit else none)

  -- `report`
  unfoldable pub report :
      Access
      → Instants
      → String
      → String
      → Manager floats.Float
      → Manager floats.Float × Option floats.Float
  unfolding device_at report_stored
  report access at topic unit m =
      report_stored access.writes at topic unit (device_at access.reads topic m.storage) m

  abbrev pub reset_stored :
      Bool
      → Time
      → String
      → Option (Device floats.Float)
      → Manager floats.Float
      → Manager floats.Float × Bool
  reset_stored writes now topic none m = (m, false)
  reset_stored writes now topic (some d) m =
      store writes topic
        (record d { accumulated_energy = floats.zero_float; last_time_updated = now }) m

  -- `reset`
  unfoldable pub reset : Access → Time → String → Manager floats.Float → Manager floats.Float × Bool
  unfolding device_at set_device
  reset access now topic m =
      reset_stored access.writes now topic (device_at access.reads topic m.storage) m
