-- ===== src/VirtualMeter/Examples.antt =====
-- adapter/service/virtualmeter: concrete runs, with whole numbers for floats.
use cliffhanger.Prelude.{
  ℕ, ◌+◌, ◌*◌, ◌≡◌, refl, true, false, some, List, [], ◌∷◌, ltb, ◌==◌, if◌then◌else◌, nat_eq,
  string_eq, contains,
}
use cliffhanger.Prelude.Int.{pos, pos_part, int_eq}
use cliffhanger.Prelude.Dict.{lookup}
use cliffhanger.VirtualMeter.{Floats, Device, float_or_zero, increase, accounted_hours, initialised}
use cliffhanger.VirtualMeter.Manager.{Manager, report, update_device_activity}
use cliffhanger.VirtualMeter.Idle.{
  MeterOp, level_op, report_op, meter_run, IsIdleSince, meter_run-idle, idle_counted,
}
use cliffhanger.VirtualMeter.Energy.{
  LevelChange, working, at_once, stretch_energy, integral, level_run, level_run-integral,
}

-- an hour is one nanosecond, and the thousandth is left out
abbrev floats : Floats
floats = record {
  Float = ℕ;
  zero_float = 0;
  plus = ◌+◌;
  times = ◌*◌;
  thousandth = λ n. n;
  twice = λ n. n + n;
  smaller = λ a b. if ltb a b then a else b;
  same_float = ◌==◌;
  hours = pos_part;
}

abbrev lamp : Device ℕ
lamp = record {
  modes = ("on", 60) ∷ ("off", 0) ∷ [];
  current_mode = "on";
  level = 1;
  accumulated_energy = 7;
  last_time_updated = 100;
  unit = "W";
  active = false;
}

abbrev lit : Device ℕ
lit = record lamp { active = true }

abbrev manager_of : Device ℕ → Manager ℕ
manager_of d = record {
  virtual_services = "lamp" ∷ [];
  storage = ("lamp", d) ∷ [];
  recalculation_period = pos 10;
  cleaning_period = pos 1000;
}

abbrev meter_ops : List (MeterOp ℕ)
meter_ops =
    level_op working (at_once 110) "off" 1
    ∷ report_op working (at_once 150) "kWh"
    ∷ level_op working (at_once 160) "on" 2
    ∷ []

meter_run-idle_example :
    IsIdleSince floats "lamp" 7 100 (meter_run floats "lamp" meter_ops (manager_of lamp))
unfolding lookup
meter_run-idle_example =
    meter_run-idle floats "lamp" meter_ops 7 100 (manager_of lamp) (lamp, refl, refl, refl, refl)

idle_counted_example :
    let (m', done) = update_device_activity working true ("lamp" ∷ []) (manager_of lamp) in
    (done ≡ true)
    × ((report floats working (at_once 500) "lamp" "kWh" m').1
        ≡ some (7 + increase floats (pos 10) 500 lamp))
unfolding lookup contains
idle_counted_example =
    idle_counted floats "lamp" (at_once 500) lamp (manager_of lamp) refl refl refl refl

-- two periods of 60
idle_test : increase floats (pos 10) 500 lamp ≡ 1200
unfolding increase accounted_hours lookup
idle_test = refl

abbrev level_changes : List (LevelChange ℕ)
level_changes =
    record { now = 105; mode = "on"; level = 2 }
    ∷ record { now = 106; mode = "on"; level = 2 }
    ∷ record { now = 110; mode = "off"; level = 2 }
    ∷ []

level_run-integral_example :
    (d' : Device ℕ) × (lookup "lamp"
        (level_run floats "lamp" level_changes (manager_of lit)).storage
      ≡ some d')
    × (d'.accumulated_energy
        ≡ integral floats
            (pos 10)
            (λ mode. float_or_zero floats (lookup mode lit.modes))
            level_changes
            100
            "on"
            1
            7)
unfolding lookup initialised
level_run-integral_example =
    level_run-integral floats "lamp" level_changes (manager_of lit) lit refl refl refl

-- 7, five hours of 60 and five of 120
integral_test :
    integral floats
      (pos 10)
      (λ mode. float_or_zero floats (lookup mode lit.modes))
      level_changes
      100
      "on"
      1
      7
    ≡ 907
unfolding integral stretch_energy lookup
integral_test = refl
