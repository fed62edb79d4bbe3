-- ===== src/VirtualMeter/Idle.antt =====
-- adapter/service/virtualmeter/manager.go: a device of a virtual meter that is not active.
use cliffhanger.Prelude.{
  String, ◌≡◌, refl, ◌∙◌, inl, inr, Bool, true, false, ◌&&◌, some, List, [], ◌∷◌, str_eq, eq_refl,
  Bool-cases, nat_eq, string_eq, contains,
}
use cliffhanger.Prelude.Int.{ltb_ℤ, int_eq, Time, Duration, since}
use cliffhanger.Prelude.Dict.{lookup, lookup-insert}
use cliffhanger.VirtualMeter.{
  Floats, Device, Instants, Access, initialised, set_device, device_at, accounted_hours, increase,
  recalculate_energy, report_per_unit,
}
use cliffhanger.VirtualMeter.Manager.{
  Manager, store, set_activity, update_device_activity, update_stored, update, report_stored,
  report,
}

-- the calls that a device gets while it is in use
pub data MeterOp (F : Type 0) : Type 0 where
  level_op : Access → Instants → String → F → MeterOp F
  report_op : Access → Instants → String → MeterOp F

module _ (floats : Floats) (topic : String) where
  unfoldable pub meter_run :
      List (MeterOp floats.Float) → Manager floats.Float → Manager floats.Float
  meter_run [] m = m
  meter_run (level_op access at mode level ∷ ops) m =
      meter_run ops (update floats access at topic mode level m).0
  meter_run (report_op access at unit ∷ ops) m =
      meter_run ops (report floats access at topic unit m).0

  -- The device stored is inactive, and its energy and the instant of its update are those given.
  abbrev pub IsIdleSince : floats.Float → Time → Manager floats.Float → Type 0
  IsIdleSince energy t m =
      (d : Device floats.Float) × (lookup topic m.storage ≡ some d)
      × (d.active ≡ false)
      × (d.accumulated_energy ≡ energy)
      × (d.last_time_updated ≡ t)

  idle_kept :
      (period : Duration) (force : Bool) (at : Instants) (d : Device floats.Float)
      → d.active ≡ false
      → recalculate_energy floats period force at d ≡ (d, false)
  unfolding recalculate_energy
  idle_kept period force at d q = rw q refl

  stored_idle :
      (writes : Bool) (d' : Device floats.Float) (energy : floats.Float) (t : Time)
      (m : Manager floats.Float)
      → IsIdleSince energy t m
      → d'.active ≡ false
      → d'.accumulated_energy ≡ energy
      → d'.last_time_updated ≡ t
      → IsIdleSince energy t (store writes topic d' m).0
  unfolding set_device
  stored_idle true d' energy t m h off e l =
      (d', lookup-insert topic topic d' m.storage ∙ rw (eq_refl topic) refl, off, e, l)
  stored_idle false d' energy t m h off e l = h

  update_idle :
      (access : Access) (at : Instants) (mode : String) (level energy : floats.Float) (t : Time)
      (m : Manager floats.Float)
      → IsIdleSince energy t m
      → IsIdleSince energy t (update floats access at topic mode level m).0
  unfolding update update_stored device_at
  update_idle access at mode level energy t m (d, q, off, e, l) =
      let h : IsIdleSince energy t m = (d, q, off, e, l) in
      elim (Bool-cases access.reads) [
        | inr a ↦ rw a h
        | inl a ↦ elim (Bool-cases (initialised d)) [
          | inr b ↦ rw (a, q, b) h
          | inl b ↦
              elim (Bool-cases (str_eq d.current_mode mode && floats.same_float d.level level)) [
                | inl c ↦ rw (a, q, b, c) h
                | inr c ↦
                    rw (a, q, b, c, idle_kept m.recalculation_period true at d off)
                      (stored_idle access.writes (record d { level = level; current_mode = mode })
                        energy t m h off e l)
              ]
        ]
      ]

  report_idle :
      (access : Access) (at : Instants) (unit : String) (energy : floats.Float) (t : Time)
      (m : Manager floats.Float)
      → IsIdleSince energy t m
      → IsIdleSince energy t (report floats access at topic unit m).0
  unfolding report report_stored device_at
  report_idle access at unit energy t m (d, q, off, e, l) =
      let h : IsIdleSince energy t m = (d, q, off, e, l) in
      elim (Bool-cases access.reads) [
        | inr a ↦ rw a h
        | inl a ↦ rw (a, q, idle_kept m.recalculation_period false at d off) h
      ]

  -- While the device is inactive, neither updates of its level nor reports change its energy or the instant
  -- from which the next energy is counted, whatever the database answers.
  pub meter_run-idle :
      (ops : List (MeterOp floats.Float)) (energy : floats.Float) (t : Time)
      (m : Manager floats.Float)
      → IsIdleSince energy t m
      → IsIdleSince energy t (meter_run ops m)
  unfolding meter_run
  meter_run-idle [] energy t m h = h
  meter_run-idle (level_op access at mode level ∷ ops) energy t m h =
      meter_run-idle ops energy t _ (update_idle access at mode level energy t m h)
  meter_run-idle (report_op access at unit ∷ ops) energy t m h =
      meter_run-idle ops energy t _ (report_idle access at unit energy t m h)

  -- When an inactive device is activated, the first report after a period adds the energy of the time since
  -- its last update, in which it was inactive, up to two periods and at its present power.
  pub idle_counted :
      (at : Instants) (d : Device floats.Float) (m : Manager floats.Float)
      → contains m.virtual_services topic ≡ true
      → lookup topic m.storage ≡ some d
      → d.active ≡ false
      → ltb_ℤ (since at.checked d.last_time_updated) m.recalculation_period ≡ false
      → let access : Access = record { reads = true; writes = true } in
        let (m', done) = update_device_activity access true (topic ∷ []) m in
        (done ≡ true)
        × ((report floats access at topic "kWh" m').1
            ≡ some (
                floats.plus d.accumulated_energy
                  (increase floats m.recalculation_period at.measured d)))
  unfolding update_device_activity set_activity report report_stored device_at recalculate_energy
      increase accounted_hours set_device report_per_unit
  idle_counted at d m k q off late =
      let active = record d { active = true } in
      rw (k, q, off, lookup-insert topic topic active m.storage, eq_refl topic, late) (refl, refl)
