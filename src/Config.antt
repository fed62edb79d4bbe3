-- ===== src/Config.antt =====
-- config/default.go: the settings that every application has, and the store that guards them. The store
-- holds the settings in memory; beside them stand, for the theorems, those of the last save that returned no
-- error. What a failed save leaves in the file is the matter of the storage and not modelled here. Every method holds the
-- store's lock; `time.Now()` and whether a save succeeds are arguments. A clone is the same value.
mod Store
mod Examples
use cliffhanger.Prelude.{◌+◌, String, Bool, true, false, Option, none, some, List, if◌then◌else◌}
use cliffhanger.Prelude.Int.{ℤ, pos, ◌+ℤ◌, Time, Duration, zero_time}

pub record SuppressedEntry : Type 0 where
  pub domains : List String
  pub events : List String

pub record TelemetryConfig : Type 0 where
  pub enabled : Bool
  pub enabled_at : Time
  pub validity : Duration
  pub suppressed : Option SuppressedEntry

-- `types.TelemetryConfig{}`
abbrev pub no_telemetry : TelemetryConfig
no_telemetry = record {
  enabled = false;
  enabled_at = zero_time;
  validity = pos 0;
  suppressed = none;
}

-- the settings that the store changes; `configured_at` is the instant, before it is formatted
pub record Default : Type 0 where
  pub log_file : String
  pub log_level : String
  pub log_format : String
  pub log_revert_timeout : Duration
  pub log_revert_at : Time
  pub restarts_count : ℤ
  pub telemetry : Option TelemetryConfig
  pub configured_at : Time

pub record DefaultStore : Type 0 where
  pub current : Default
  pub last_saved : Default

-- what is known after a call of the function `save` that the store is given: whether it returned no error
abbrev pub call_save : Bool → DefaultStore → DefaultStore × Bool
call_save true s = (record s { last_saved = s.current }, true)
call_save false s = (s, false)

-- `saveStamped`
unfoldable pub save_stamped : Time → Bool → DefaultStore → DefaultStore × Bool
save_stamped now ok s =
    call_save ok (record s { current = record s.current { configured_at = now } })

-- `Save`
unfoldable pub save : Time → Bool → DefaultStore → DefaultStore × Bool
unfolding save_stamped
save now ok s = save_stamped now ok s

abbrev pub with_current : DefaultStore → Default → DefaultStore
with_current s d = record s { current = d }

unfoldable pub set_level : String → Time → Bool → DefaultStore → DefaultStore × Bool
unfolding save_stamped
set_level level now ok s =
    save_stamped now ok (with_current s (record s.current { log_level = level }))

unfoldable pub set_format : String → Time → Bool → DefaultStore → DefaultStore × Bool
unfolding save_stamped
set_format format now ok s =
    save_stamped now ok (with_current s (record s.current { log_format = format }))

unfoldable pub set_log_file : String → Time → Bool → DefaultStore → DefaultStore × Bool
unfolding save_stamped
set_log_file file now ok s =
    save_stamped now ok (with_current s (record s.current { log_file = file }))

unfoldable pub set_log_revert_timeout : Duration → Time → Bool → DefaultStore → DefaultStore × Bool
unfolding save_stamped
set_log_revert_timeout d now ok s =
    save_stamped now ok (with_current s (record s.current { log_revert_timeout = d }))

unfoldable pub set_log_revert_at : Time → Time → Bool → DefaultStore → DefaultStore × Bool
unfolding save_stamped
set_log_revert_at t now ok s =
    save_stamped now ok (with_current s (record s.current { log_revert_at = t }))

-- `Telemetry`; none is the error
unfoldable pub telemetry_of : DefaultStore → Option TelemetryConfig
telemetry_of s = s.current.telemetry

unfoldable pub set_telemetry : TelemetryConfig → Time → Bool → DefaultStore → DefaultStore × Bool
unfolding save_stamped
set_telemetry cfg now ok s =
    save_stamped now ok (with_current s (record s.current { telemetry = some cfg }))

-- `IncrementRestartsCount` of the store; none is the error
unfoldable pub increment_restarts_count : Bool → DefaultStore → DefaultStore × Option ℤ
unfolding ◌+ℤ◌
increment_restarts_count ok s =
    let count = s.current.restarts_count +ℤ pos 1 in
    let (s', done) = call_save ok (with_current s (record s.current { restarts_count = count })) in
    (s', if done then some count else none)
