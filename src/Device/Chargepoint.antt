-- ===== src/Device/Chargepoint.antt =====
-- adapter/service/chargepoint/service.go, model.go: the service of a charger. The controller is outside:
-- whether it obeys a command and what it answers are arguments, as are floats with their texts and the
-- texts of instants and integers. The error of a call is told by the case of its result.
pub mod Reports
mod Routing
mod Commands
mod Handlers
mod Task
mod Examples
use cliffhanger.Prelude.{
  String, Bool, true, false, not, ◌&&◌, Option, none, some, List, [], ◌∷◌, str_eq, if◌then◌else◌,
  nat_eq, string_eq, contains,
}
use cliffhanger.Prelude.Int.{ℤ, pos, ltb_ℤ, int_eq, Time}
use cliffhanger.Cache.Reporter.{
  Strategy, on_change_only, at_least_every, ReportingCache, new_reporting_cache,
}

-- what a controller implements of the optional interfaces
pub record Capabilities : Type 0 where
  pub adjusts_max_current : Bool
  pub adjusts_offered_current : Bool
  pub knows_phase_mode : Bool
  pub adjusts_phase_mode : Bool
  pub knows_cable_lock : Bool
  pub adjusts_cable_lock : Bool

-- the properties of the specification that the service reads
pub record Specification : Type 0 where
  pub sup_max_current : Option ℤ
  pub sup_states : List String
  pub sup_charging_modes : List String
  pub sup_phase_modes : List String

pub record CableReport : Type 0 where
  pub cable_lock : Bool
  pub cable_current : Option ℤ

pub record SessionReport (Float : Type 0) : Type 0 where
  pub session_energy : Float
  pub previous_session_energy : Float
  pub started_at : Time
  pub finished_at : Time
  pub offered_current : ℤ

-- the calls of the controller that change something
pub data Command : Type 0 where
  start_charging : String → Command
  stop_charging : Command
  set_cable_lock : Bool → Command
  set_offered_current set_max_current : ℤ → Command
  set_phase_mode : String → Command

-- what is reported, which is what the cache keeps
pub data Reading (Float : Type 0) : Type 0 where
  session : SessionReport Float → Reading Float
  cable : CableReport → Reading Float
  state phase_mode : String → Reading Float
  max_current : ℤ → Reading Float

-- values of messages
pub data Payload (Float : Type 0) : Type 0 where
  float_payload : Float → Payload Float
  bool_payload : Bool → Payload Float
  string_payload : String → Payload Float
  int_payload : ℤ → Payload Float

-- strings.ToLower, strconv and the layout of instants
pub record Texts : Type 1 where
  pub Float : Type 0
  pub is_positive : Float → Bool
  pub format_float : Float → String
  pub format_int : ℤ → String
  pub format_time : Time → String
  pub to_lower : String → String

pub record Chargepoint (Float : Type 0) : Type 0 where
  pub specification : Specification
  pub capabilities : Capabilities
  pub cache : ReportingCache (Reading Float)
  pub state_strategy : Strategy
  pub session_strategy : Strategy

-- the result of a setter: an error before the controller is called, or its call and whether it obeys
pub data Setting : Type 0 where
  refused : Setting
  called : Command → Bool → Setting

abbrev pub evt_current_session_report : String
evt_current_session_report = "evt.current_session.report"

abbrev pub evt_cable_lock_report : String
evt_cable_lock_report = "evt.cable_lock.report"

abbrev pub evt_state_report : String
evt_state_report = "evt.state.report"

abbrev pub evt_max_current_report : String
evt_max_current_report = "evt.max_current.report"

abbrev pub evt_phase_mode_report : String
evt_phase_mode_report = "evt.phase_mode.report"

-- `DefaultSessionReportingStrategy`, 30 minutes
abbrev pub default_session_strategy : Strategy
default_session_strategy = at_least_every (pos 1_800_000_000_000)

abbrev pub strategy_or : Strategy → Option Strategy → Strategy
strategy_or default none = default
strategy_or default (some s) = s

abbrev pub is_present {ℓ} : {A : Type ℓ} → Option A → Bool
is_present none = false
is_present (some a) = true

abbrev pub int_or_zero : Option ℤ → ℤ
int_or_zero none = pos 0
int_or_zero (some n) = n

abbrev pub has_any : List String → Bool
has_any [] = false
has_any (x ∷ xs) = true

module _ {F : Type 0} where
  -- `NewService`, without the lists of interfaces that it completes
  unfoldable pub new_service :
      Specification → Capabilities → Option Strategy → Option Strategy → Chargepoint F
  unfolding new_reporting_cache
  new_service spec caps state_reporting session_reporting = record {
    specification = spec;
    capabilities = caps;
    cache = new_reporting_cache;
    state_strategy = strategy_or on_change_only state_reporting;
    session_strategy = strategy_or default_session_strategy session_reporting;
  }

  -- whether the methods that look for an optional interface find it
  unfoldable pub supports_adjusting_max_current : Chargepoint F → Bool
  supports_adjusting_max_current s =
      is_present s.specification.sup_max_current && s.capabilities.adjusts_max_current

  unfoldable pub supports_adjusting_offered_current : Chargepoint F → Bool
  supports_adjusting_offered_current s =
      is_present s.specification.sup_max_current && s.capabilities.adjusts_offered_current

  unfoldable pub is_phase_mode_aware : Chargepoint F → Bool
  is_phase_mode_aware s = has_any s.specification.sup_phase_modes && s.capabilities.knows_phase_mode

  unfoldable pub supports_adjusting_phase_modes : Chargepoint F → Bool
  unfolding is_phase_mode_aware
  supports_adjusting_phase_modes s = is_phase_mode_aware s && s.capabilities.adjusts_phase_mode

  unfoldable pub is_cable_lock_aware : Chargepoint F → Bool
  is_cable_lock_aware s = s.capabilities.knows_cable_lock

  unfoldable pub supports_adjusting_cable_lock : Chargepoint F → Bool
  unfolding is_cable_lock_aware
  supports_adjusting_cable_lock s = is_cable_lock_aware s && s.capabilities.adjusts_cable_lock

  -- `validateCurrent`: whether there is no error
  unfoldable pub validate_current : ℤ → Chargepoint F → Bool
  validate_current current s =
      if ltb_ℤ current (pos 6)
      then false
      else not (ltb_ℤ (int_or_zero s.specification.sup_max_current) current)

  -- `validatePhaseMode`
  unfoldable pub validate_phase_mode : String → Chargepoint F → Bool
  unfolding contains
  validate_phase_mode mode s = contains s.specification.sup_phase_modes mode

abbrev pub call : (Command → Bool) → Command → Setting
call obeys c = called c (obeys c)

-- the last part of `StartCharging`, with the mode that is normalized
abbrev pub start_with : (Command → Bool) → Option String → Setting
start_with obeys none = refused
start_with obeys (some mode) = call obeys (start_charging mode)

-- the methods that call the controller, given whether it obeys
module _ {F : Type 0} (obeys : Command → Bool) where
  -- `StopCharging`
  unfoldable pub stop_charging_by : Chargepoint F → Setting
  stop_charging_by s = call obeys stop_charging

  -- `SetCableLock`
  unfoldable pub set_cable_lock_by : Bool → Chargepoint F → Setting
  unfolding supports_adjusting_cable_lock
  set_cable_lock_by lock s =
      if supports_adjusting_cable_lock s then call obeys (set_cable_lock lock) else refused

  -- `SetOfferedCurrent`
  unfoldable pub set_offered_current_by : ℤ → Chargepoint F → Setting
  unfolding supports_adjusting_offered_current validate_current
  set_offered_current_by current s =
      if not (supports_adjusting_offered_current s)
      then refused
      else if not (validate_current current s)
      then refused
      else call obeys (set_offered_current current)

  -- `SetMaxCurrent`
  unfoldable pub set_max_current_by : ℤ → Chargepoint F → Setting
  unfolding supports_adjusting_max_current validate_current
  set_max_current_by current s =
      if not (supports_adjusting_max_current s)
      then refused
      else if not (validate_current current s)
      then refused
      else call obeys (set_max_current current)

  -- `SetPhaseMode`
  unfoldable pub set_phase_mode_by : String → Chargepoint F → Setting
  unfolding supports_adjusting_phase_modes validate_phase_mode
  set_phase_mode_by mode s =
      if not (supports_adjusting_phase_modes s)
      then refused
      else if not (validate_phase_mode mode s)
      then refused
      else call obeys (set_phase_mode mode)

module _ (texts : Texts) where
  -- `normalizeChargingMode`; none is the error
  unfoldable pub normalize_charging_mode : String → Chargepoint texts.Float → Option String
  unfolding contains
  normalize_charging_mode mode s =
      if str_eq mode ""
      then some ""
      else if not (has_any s.specification.sup_charging_modes)
      then some ""
      else let m = texts.to_lower mode in
        if contains s.specification.sup_charging_modes m then some m else none

  -- `StartCharging`
  unfoldable pub start_charging_by : (Command → Bool) → String → Chargepoint texts.Float → Setting
  unfolding normalize_charging_mode
  start_charging_by obeys mode s = start_with obeys (normalize_charging_mode mode s)
