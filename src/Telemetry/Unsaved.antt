-- ===== src/Telemetry/Unsaved.antt =====
-- telemetry/telemetry.go: `Enable` when the configuration cannot be saved.
use cliffhanger.Prelude.{◌≡◌, refl, true, false, none, nat_eq, string_eq}
use cliffhanger.Prelude.Int.{int_eq, Time}
use cliffhanger.Config.{set_telemetry, telemetry_of}
use cliffhanger.Telemetry.{Telemetry, config, enable, write_config}
use cliffhanger.Telemetry.Window.{IsTimed}

module _ {V : Type 0} where
  -- When the save fails while no timer runs, `enable` returns an error, but telemetry is enabled from then
  -- on, and no timer will disable it.
  pub enable-unsaved :
      (now : Time) (t : Telemetry V)
      → t.timer ≡ none
      → let (t', done) = enable true now false t in
        (done ≡ false) × ((config t').enabled ≡ true) × (t'.timer ≡ none) × ¬ IsTimed now t'
  unfolding enable config write_config set_telemetry telemetry_of IsTimed
  enable-unsaved now t q = (refl, refl, q, λ h. cc (rw q at h))
