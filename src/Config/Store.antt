-- ===== src/Config/Store.antt =====
-- config/default.go: any sequence of the setters, whose saves may fail, against a description without a
-- store.
use cliffhanger.Prelude.{
  String, ◌≡◌, refl, ap, ◌∙◌, Bool, true, false, some, List, [], ◌∷◌, if◌then◌else◌, nat_eq,
  string_eq,
}
use cliffhanger.Prelude.Int.{pos, ◌+ℤ◌, int_eq, Time, Duration}
use cliffhanger.Config.{
  TelemetryConfig, Default, DefaultStore, call_save, save_stamped, set_level, set_format,
  set_log_file, set_log_revert_timeout, set_log_revert_at, set_telemetry, increment_restarts_count,
}

-- a change of the settings
pub data Change : Type 0 where
  level_to format_to file_to : String → Change
  timeout_to : Duration → Change
  revert_to : Time → Change
  telemetry_to : TelemetryConfig → Change
  restarted : Change

-- a change, the time of it and whether its save succeeds
pub record Write : Type 0 where
  pub change : Change
  pub now : Time
  pub saved : Bool

-- the method that makes the change
unfoldable pub write : Write → DefaultStore → DefaultStore
unfolding set_level set_format set_log_file set_log_revert_timeout set_log_revert_at set_telemetry
    increment_restarts_count
write w s = elim w.change [
  | level_to x ↦ (set_level x w.now w.saved s).0
  | format_to x ↦ (set_format x w.now w.saved s).0
  | file_to x ↦ (set_log_file x w.now w.saved s).0
  | timeout_to x ↦ (set_log_revert_timeout x w.now w.saved s).0
  | revert_to x ↦ (set_log_revert_at x w.now w.saved s).0
  | telemetry_to x ↦ (set_telemetry x w.now w.saved s).0
  | restarted ↦ (increment_restarts_count w.saved s).0
]

unfoldable pub writes : List Write → DefaultStore → DefaultStore
writes [] s = s
writes (w ∷ ws) s = writes ws (write w s)

-- what a change means for the settings; only a restart leaves the instant of the configuration
unfoldable pub described : Write → Default → Default
unfolding ◌+ℤ◌
described w d = elim w.change [
  | level_to x ↦ record d { log_level = x; configured_at = w.now }
  | format_to x ↦ record d { log_format = x; configured_at = w.now }
  | file_to x ↦ record d { log_file = x; configured_at = w.now }
  | timeout_to x ↦ record d { log_revert_timeout = x; configured_at = w.now }
  | revert_to x ↦ record d { log_revert_at = x; configured_at = w.now }
  | telemetry_to x ↦ record d { telemetry = some x; configured_at = w.now }
  | restarted ↦ record d { restarts_count = d.restarts_count +ℤ pos 1 }
]

-- the settings in memory, and those that the last save without an error was given
unfoldable pub expected : List Write → Default → Default → Default × Default
expected [] memory disk = (memory, disk)
expected (w ∷ ws) memory disk =
    let next = described w memory in expected ws next (if w.saved then next else disk)

write_lem :
    (w : Write) (s : DefaultStore)
    → write w s ≡ record {
      current = described w s.current;
      last_saved = if w.saved then described w s.current else s.last_saved;
    }
unfolding write described save_stamped
write_lem w s = of_change w.change w.now w.saved s
  where
    save_lem :
        (ok : Bool) (s : DefaultStore)
        → (call_save ok s).0
          ≡ record { current = s.current; last_saved = if ok then s.current else s.last_saved }
    save_lem true s = refl
    save_lem false s = refl

    of_change :
        (c : Change) (now : Time) (ok : Bool) (s : DefaultStore)
        → let w : Write = record { change = c; now = now; saved = ok } in
          write w s ≡ record {
            current = described w s.current;
            last_saved = if ok then described w s.current else s.last_saved;
          }
    of_change (level_to x) now ok s = save_lem ok _
    of_change (format_to x) now ok s = save_lem ok _
    of_change (file_to x) now ok s = save_lem ok _
    of_change (timeout_to x) now ok s = save_lem ok _
    of_change (revert_to x) now ok s = save_lem ok _
    of_change (telemetry_to x) now ok s = save_lem ok _
    of_change restarted now ok s = save_lem ok _

-- Through any sequence of setters the settings in memory are all the changes, one after the other, whether
-- their saves succeed, and the last save without an error was given all the changes up to it.
pub writes-expected :
    (ws : List Write) (s : DefaultStore)
    → let s' = writes ws s in (s'.current, s'.last_saved) ≡ expected ws s.current s.last_saved
unfolding writes expected
writes-expected [] s = refl
writes-expected (w ∷ ws) s =
    writes-expected ws (write w s) ∙ ap (λ k. expected ws k.current k.last_saved) (write_lem w s)
