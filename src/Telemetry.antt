-- ===== src/Telemetry.antt =====
-- telemetry/telemetry.go: events of an application that are published while telemetry is enabled, which
-- is for a limited time. The calls of the methods are one step each, since they hold the lock while they
-- change the state; the clock and whether a save succeeds are arguments. The polling of the configuration
-- is an outside caller of `apply_config_from_cloud`.
pub mod Emit
mod Window
mod Runs
mod Throttle
mod Counting
mod Keys
mod Scope
mod Sent
mod Reset
mod Unsaved
mod Examples
use cliffhanger.Prelude.{
  ℕ, ◌+◌, ◌-◌, ◌/◌, String, Bool, true, false, not, ◌&&◌, ◌||◌, Option, none, some, [], str_eq, ltb,
  ◌==◌, if◌then◌else◌,
}
use cliffhanger.Prelude.Int.{ℤ, pos, ◌+ℤ◌, ◌-ℤ◌, ltb_ℤ, leb_ℤ, Time, Duration, zero_time, is_zero}
use cliffhanger.Prelude.Dict.{Dict}
use cliffhanger.Config.{
  SuppressedEntry, TelemetryConfig, no_telemetry, DefaultStore, telemetry_of, set_telemetry,
}

-- a state of `EmitIfMore`
pub record IfMoreState (V : Type 0) : Type 0 where
  pub count : ℕ
  pub last : Time
  pub values : Dict V

-- `telemetryT`: a timer is a place in a store of timers, which holds the instant of its end. V is the
-- type of the values in the data of an event.
pub record Telemetry (V : Type 0) : Type 0 where
  pub source_rn : String
  pub store : DefaultStore
  pub topic : String
  pub timer : Option ℕ
  pub next_timer : ℕ
  pub timer_ends : ℕ → ℤ
  pub emit_timestamps : Dict Time
  pub if_more_states : Dict (IfMoreState V)

abbrev pub default_topic : String
default_topic = "pt:j1/mt:rsp/rt:cloud/rn:backend-service/ad:telemetry"

-- 30 days
abbrev pub default_telemetry_validity : Duration
default_telemetry_validity = pos 2_592_000_000_000_000

unfoldable pub validity_or_default : TelemetryConfig → Duration
validity_or_default c = if ltb_ℤ (pos 0) c.validity then c.validity else default_telemetry_validity

abbrev pub config_or : Option TelemetryConfig → TelemetryConfig
config_or none = no_telemetry
config_or (some c) = c

-- whether telemetry is enabled and it is known since when
abbrev pub is_dated : TelemetryConfig → Bool
is_dated c = c.enabled && not (is_zero c.enabled_at)

-- `max(time.Since(t), 0)`
abbrev pub elapsed_since : Time → Time → ℕ
elapsed_since now t = now - t

-- the configuration that `SetValidity` saves
unfoldable pub next_validity : Duration → Bool → TelemetryConfig → TelemetryConfig
next_validity validity should_disable c = record c {
  validity = validity;
  enabled = if should_disable then false else c.enabled;
  enabled_at = if should_disable then zero_time else c.enabled_at;
}

-- the instant of the enabling that `resumeValidityWindow` takes: one that is missing or in the future is
-- the present one
abbrev pub resumed_at : Time → TelemetryConfig → Time
resumed_at now c = if is_zero c.enabled_at || ltb now c.enabled_at then now else c.enabled_at

-- the configuration that `resumeValidityWindow` saves
unfoldable pub resumed : Time → Bool → TelemetryConfig → TelemetryConfig
resumed now expired c = record c {
  enabled = not expired;
  enabled_at = if expired then zero_time else resumed_at now c;
}

-- the first part of `New`: without a stored configuration telemetry is enabled
unfoldable pub seeded : String → DefaultStore → Time → Bool → Option DefaultStore
unfolding set_telemetry telemetry_of
seeded source store now ok = if str_eq source "" then none else elim (telemetry_of store) [
  | some c ↦ some store
  | none ↦
      (let (s, done) =
          set_telemetry (record no_telemetry { enabled = true; enabled_at = now }) now ok store in
        if done then some s else none)
]

module _ {V : Type 0} where
  -- `config`
  unfoldable pub config : Telemetry V → TelemetryConfig
  unfolding telemetry_of
  config t = config_or (telemetry_of t.store)

  -- `startTimerLocked`
  unfoldable pub start_timer : Time → Duration → Telemetry V → Telemetry V
  unfolding ◌+ℤ◌
  start_timer now d t = record t {
    timer = some t.next_timer;
    next_timer = t.next_timer + 1;
    timer_ends = λ i. if i == t.next_timer then pos now +ℤ d else t.timer_ends i;
  }

  -- `stopTimerLocked`
  unfoldable pub stop_timer : Telemetry V → Telemetry V
  stop_timer t = record t { timer = none }

  -- `store.SetTelemetry` on the store of the telemetry
  unfoldable pub write_config : TelemetryConfig → Time → Bool → Telemetry V → Telemetry V × Bool
  unfolding set_telemetry
  write_config c now ok t =
      let (s, done) = set_telemetry c now ok t.store in (record t { store = s }, done)

  -- `SetEvtTopic`
  unfoldable pub set_evt_topic : String → Telemetry V → Telemetry V
  set_evt_topic topic t = record t { topic = if str_eq topic "" then default_topic else topic }

  -- `Enable`: the new state, and whether there is no error
  unfoldable pub enable : Bool → Time → Bool → Telemetry V → Telemetry V × Bool
  unfolding config write_config stop_timer start_timer validity_or_default
  enable enabled now ok t =
      let next = record (config t) {
        enabled = enabled;
        enabled_at = if enabled then now else zero_time;
      } in
      let (t1, done) = write_config next now ok t in
      if not done
      then (t1, false)
      else if enabled
      then (start_timer now (validity_or_default next) (stop_timer t1), true)
      else (stop_timer t1, true)

  -- the last part of `SetValidity`, after the save of `next`
  unfoldable pub restart_timer :
      Duration → ℕ → Bool → TelemetryConfig → Time → Telemetry V → Telemetry V
  unfolding stop_timer start_timer ◌-ℤ◌
  restart_timer validity elapsed should_disable next now t =
      if should_disable
      then stop_timer t
      else if is_dated next
      then start_timer now (validity -ℤ pos elapsed) (stop_timer t)
      else stop_timer t

  -- `SetValidity`
  unfoldable pub set_validity : Duration → Time → Bool → Telemetry V → Telemetry V × Bool
  unfolding config write_config restart_timer
  set_validity validity now ok t =
      if leb_ℤ validity (pos 0)
      then (t, false)
      else let c = config t in
        let elapsed = if is_dated c then elapsed_since now c.enabled_at else 0 in
        let should_disable = is_dated c && leb_ℤ validity (pos elapsed) in
        let next = next_validity validity should_disable c in
        let (t1, done) = write_config next now ok t in
        if done
        then (restart_timer validity elapsed should_disable next now t1, true)
        else (t1, false)

  -- `SetSuppressed`; `entry` is what the given map has for the source of this telemetry. An entry with
  -- neither domains nor events is stored as it is.
  unfoldable pub set_suppressed :
      Option SuppressedEntry → Time → Bool → Telemetry V → Telemetry V × Bool
  unfolding config write_config
  set_suppressed entry now ok t = write_config (record (config t) { suppressed = entry }) now ok t

  -- `disableLocked`
  unfoldable pub disable : Time → Bool → Telemetry V → Telemetry V
  unfolding config write_config
  disable now ok t =
      let t1 = record t { timer = none } in
      (write_config (record (config t1) { enabled = false; enabled_at = zero_time }) now ok t1).0

  abbrev pub disable_if : Option ℕ → ℕ → Time → Bool → Telemetry V → Telemetry V
  disable_if none i now ok t = t
  disable_if (some j) i now ok t = if j == i then disable now ok t else t

  -- what the timer at the place `i` does when it ends: another one than the stored one does nothing
  unfoldable pub timer_ended : ℕ → Time → Bool → Telemetry V → Telemetry V
  unfolding disable
  timer_ended i now ok t = disable_if t.timer i now ok t

  -- `applyConfigFromCloud`, which logs the errors; the two saves are told of
  unfoldable pub apply_config_from_cloud :
      Bool → Option SuppressedEntry → Time → Bool → Bool → Telemetry V → Telemetry V
  unfolding enable set_suppressed
  apply_config_from_cloud enabled entry now ok1 ok2 t =
      (set_suppressed entry now ok2 (enable enabled now ok1 t).0).0

  -- `resumeValidityWindow`; a failed save is only logged
  unfoldable pub resume_validity_window : Time → Bool → Telemetry V → Telemetry V
  unfolding config write_config start_timer validity_or_default resumed ◌-ℤ◌
  resume_validity_window now ok t =
      let c = config t in
      let validity = validity_or_default c in
      let at = resumed_at now c in
      let expired = leb_ℤ validity (pos (now - at)) in
      let dirty = not (at == c.enabled_at) || expired in
      if not c.enabled
      then t
      else let t1 = if dirty then (write_config (resumed now expired c) now ok t).0 else t in
        if expired then t1 else start_timer now (validity -ℤ pos (now - at)) t1

  abbrev pub fresh : String → DefaultStore → Telemetry V
  fresh source store = record {
    source_rn = source;
    store = store;
    topic = default_topic;
    timer = none;
    next_timer = 0;
    timer_ends = λ i. pos 0;
    emit_timestamps = [];
    if_more_states = [];
  }

  -- `New`, when there is a transport and a store, up to the start of the polling; none is the error.
  unfoldable pub new_telemetry : String → DefaultStore → Time → Bool → Bool → Option (Telemetry V)
  unfolding seeded resume_validity_window
  new_telemetry source store now ok1 ok2 = elim (seeded source store now ok1) [
    | none ↦ none
    | some s ↦ some (resume_validity_window now ok2 (fresh source s))
  ]
