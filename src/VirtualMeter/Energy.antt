-- ===== src/VirtualMeter/Energy.antt =====
-- adapter/service/virtualmeter/manager.go: the energy of a device that is in use, against the sum over
-- the stretches of time between its changes, of which each counts for two periods at most.
use cliffhanger.Prelude.{
  String, ◌≡◌, refl, ap, ◌∙◌, inl, inr, true, ◌&&◌, some, List, [], ◌∷◌, str_eq, eq_refl,
  if◌then◌else◌, Bool-cases, nat_eq, string_eq,
}
use cliffhanger.Prelude.Int.{int_eq, Time, Duration, since}
use cliffhanger.Prelude.Dict.{lookup, insert, lookup-insert}
use cliffhanger.VirtualMeter.{
  Floats, Device, Instants, Access, initialised, set_device, device_at, accounted_hours, increase,
  float_or_zero, recalculate_energy,
}
use cliffhanger.VirtualMeter.Manager.{Manager, update_stored, update}

-- a change of the level, at one instant
pub record LevelChange (F : Type 0) : Type 0 where
  pub now : Time
  pub mode : String
  pub level : F

abbrev pub working : Access
working = record { reads = true; writes = true }

abbrev pub at_once : Time → Instants
at_once now = record { checked = now; measured = now; stamped = now }

module _ (floats : Floats) (period : Duration) where
  -- the energy of a stretch of time with constant power, two periods at most
  unfoldable pub stretch_energy : Time → Time → floats.Float → floats.Float → floats.Float
  stretch_energy from to power level = floats.thousandth (
      floats.times
        (floats.times
          (floats.smaller (floats.hours (since to from)) (floats.twice (floats.hours period)))
          power)
        level)

  module _ (powers : String → floats.Float) where
    -- the energy of stretches: each has the mode and the level that were set at its beginning; a change to
    -- the same mode and level ends none
    unfoldable pub integral :
        List (LevelChange floats.Float) → Time → String → floats.Float → floats.Float → floats.Float
    unfolding stretch_energy
    integral [] from mode level energy = energy
    integral (c ∷ cs) from mode level energy =
        let later =
          integral cs c.now c.mode c.level
            (floats.plus energy (stretch_energy from c.now (powers mode) level)) in
        let same = integral cs from mode level energy in
        if str_eq mode c.mode && floats.same_float level c.level then same else later

module _ (floats : Floats) (topic : String) where
  unfoldable pub level_run :
      List (LevelChange floats.Float) → Manager floats.Float → Manager floats.Float
  level_run [] m = m
  level_run (c ∷ cs) m =
      level_run cs (update floats working (at_once c.now) topic c.mode c.level m).0

  -- The energy of an active device with modes, after changes of its level that are each made at one instant
  -- of the clock and with a database that does not fail: the sum over the stretches of time between the
  -- changes, each at the mode and the level that were set before it, and each cut to two periods of the
  -- recalculation.
  pub level_run-integral :
      (cs : List (LevelChange floats.Float)) (m : Manager floats.Float) (d : Device floats.Float)
      → lookup topic m.storage ≡ some d
      → d.active ≡ true
      → initialised d ≡ true
      → (d' : Device floats.Float) × (lookup topic (level_run cs m).storage ≡ some d')
        × (d'.accumulated_energy
            ≡ integral floats m.recalculation_period
                (λ mode. float_or_zero floats (lookup mode d.modes))
                cs
                d.last_time_updated
                d.current_mode
                d.level
                d.accumulated_energy)
  unfolding level_run integral initialised
  level_run-integral [] m d q on ready = (d, q, refl)
  level_run-integral (c ∷ cs) m d q on ready =
      let same = str_eq d.current_mode c.mode && floats.same_float d.level c.level in
      let next : Device floats.Float = record d {
        accumulated_energy = floats.plus d.accumulated_energy (
            stretch_energy floats m.recalculation_period d.last_time_updated c.now
              (float_or_zero floats (lookup d.current_mode d.modes)) d.level);
        last_time_updated = c.now;
        level = c.level;
        current_mode = c.mode;
      } in
      elim (Bool-cases same) [
        | inl a ↦
            (let kept : (update floats working (at_once c.now) topic c.mode c.level m).0 ≡ m =
                unfold update update_stored device_at in rw (q, ready, a) refl in
              rw (ap (level_run cs) kept, a) (level_run-integral cs m d q on ready))
        | inr a ↦
            (let moved : (update floats working (at_once c.now) topic c.mode c.level m).0
                  ≡ record m { storage = insert topic next m.storage } =
                unfold update update_stored device_at recalculate_energy increase accounted_hours
                  stretch_energy set_device in
                rw (q, ready, a, on) refl in
              rw (ap (level_run cs) moved, a)
                (level_run-integral cs (record m { storage = insert topic next m.storage }) next
                  (lookup-insert topic topic next m.storage ∙ rw (eq_refl topic) refl) on ready))
      ]
