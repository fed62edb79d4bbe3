-- ===== src/VirtualMeter.antt =====
-- adapter/service/virtualmeter/storage.go and manager.go: the devices of virtual meters, and the energy they
-- accumulate. Floats with their operations, and what the database answers, are arguments.
pub mod Manager
mod Energy
mod Idle
mod Examples
use cliffhanger.Prelude.{
  String, Bool, true, false, not, ◌&&◌, Option, none, some, [], ◌∷◌, str_eq, if◌then◌else◌,
}
use cliffhanger.Prelude.Int.{ltb_ℤ, Time, Duration, since}
use cliffhanger.Prelude.Dict.{Dict, lookup, insert, remove}

-- the operations on float64 that the code uses; `hours` is Duration.Hours, `smaller` is math.Min
pub record Floats : Type 1 where
  pub Float : Type 0
  pub zero_float : Float
  pub plus : Float → Float → Float
  pub times : Float → Float → Float
  pub thousandth : Float → Float
  pub twice : Float → Float
  pub smaller : Float → Float → Float
  pub same_float : Float → Float → Bool
  pub hours : Duration → Float

pub record Device (F : Type 0) : Type 0 where
  pub modes : Dict F
  pub current_mode : String
  pub level : F
  pub accumulated_energy : F
  pub last_time_updated : Time
  pub unit : String
  pub active : Bool

-- the instants at which `recalculateEnergy` reads the clock
pub record Instants : Type 0 where
  pub checked : Time
  pub measured : Time
  pub stamped : Time

-- the answers of the database: whether a read and a write have no error
pub record Access : Type 0 where
  pub reads : Bool
  pub writes : Bool

abbrev pub has_modes {ℓ} : {A : Type ℓ} → Dict A → Bool
has_modes [] = false
has_modes (m ∷ ms) = true

module _ {F : Type 0} where
  -- `Initialised`
  unfoldable pub initialised : Device F → Bool
  initialised d = has_modes d.modes

  -- `Storage.SetDevice`, and whether there is no error
  unfoldable pub set_device : Bool → String → Device F → Dict (Device F) → Dict (Device F) × Bool
  set_device writes addr d storage =
      if writes then (insert addr d storage, true) else (storage, false)

  -- `Storage.DeleteDevice`
  unfoldable pub delete_device : Bool → String → Dict (Device F) → Dict (Device F) × Bool
  delete_device writes addr storage =
      if writes then (remove addr storage, true) else (storage, false)

  -- `Storage.Device`: none is an error or a device that is not stored, which the manager treats alike
  unfoldable pub device_at : Bool → String → Dict (Device F) → Option (Device F)
  unfolding lookup
  device_at reads addr storage = if reads then lookup addr storage else none

module _ (floats : Floats) where
  abbrev pub float_or_zero : Option floats.Float → floats.Float
  float_or_zero none = floats.zero_float
  float_or_zero (some x) = x

  -- `d.Modes[d.CurrentMode] * d.Level`
  unfoldable pub power : Device floats.Float → floats.Float
  unfolding lookup
  power d = floats.times (float_or_zero (lookup d.current_mode d.modes)) d.level

  -- the device that `CleanDevice` stores
  abbrev pub cleaned : Time → Device floats.Float
  cleaned now = record {
    modes = [];
    current_mode = "";
    level = floats.zero_float;
    accumulated_energy = floats.zero_float;
    last_time_updated = now;
    unit = "";
    active = false;
  }

  -- the hours that `recalculateEnergy` accounts for: those that passed, two periods at most
  unfoldable pub accounted_hours : Duration → Time → Device floats.Float → floats.Float
  accounted_hours period now d =
      floats.smaller (floats.hours (since now d.last_time_updated))
        (floats.twice (floats.hours period))

  -- `timeSinceUpdatedHours * d.Modes[d.CurrentMode] * d.Level / 1000`
  unfoldable pub increase : Duration → Time → Device floats.Float → floats.Float
  unfolding accounted_hours lookup
  increase period now d = floats.thousandth (
      floats.times
        (floats.times (accounted_hours period now d)
          (float_or_zero (lookup d.current_mode d.modes)))
        d.level)

  -- `recalculateEnergy`, on a device that is there; the result is whether it is updated
  unfoldable pub recalculate_energy :
      Duration → Bool → Instants → Device floats.Float → Device floats.Float × Bool
  unfolding increase
  recalculate_energy period force at d =
      if not d.active
      then (d, false)
      else if not force && ltb_ℤ (since at.checked d.last_time_updated) period
      then (d, false)
      else (
        record d {
          accumulated_energy = floats.plus d.accumulated_energy (increase period at.measured d);
          last_time_updated = at.stamped;
        },
        true,
      )

  -- `reportPerUnit`; none is the error
  unfoldable pub report_per_unit : Device floats.Float → String → Option floats.Float
  unfolding power
  report_per_unit d unit =
      if str_eq unit "W"
      then some (power d)
      else if str_eq unit "kWh"
      then some d.accumulated_energy
      else none
