-- ===== src/Device/Chargepoint/Handlers.antt =====
-- adapter/service/chargepoint/routing.go: what a handler does with the controller and the transport.
use cliffhanger.Prelude.{
  String, ◌≡◌, refl, sym, ◌∙◌, Bool, true, false, none, some, nat_eq, string_eq,
}
use cliffhanger.Prelude.Int.{int_eq}
use mathlib.Core.Path.{subst}
use cliffhanger.Device.Report.{Call, Sending, sent, skipped, unsupported, unread, unsent}
use cliffhanger.Device.Chargepoint.{
  Texts, Command, stop_charging, Reading, Payload, evt_max_current_report, evt_state_report,
  evt_cable_lock_report, evt_current_session_report, evt_phase_mode_report, Chargepoint, Setting,
  refused, called, stop_charging_by,
}
use cliffhanger.Device.Chargepoint.Reports.{
  Answers, send_state_report, send_cable_lock_report, send_current_session_report,
  send_max_current_report, send_phase_mode_report,
}
use cliffhanger.Device.Chargepoint.Routing.{
  Incoming, cmd_charge_start, cmd_charge_stop, cmd_state_get_report, cmd_cable_lock_get_report,
  cmd_current_session_get_report, cmd_max_current_get_report, cmd_phase_mode_get_report,
  cmd_cable_lock_set, cmd_current_session_set_current, cmd_max_current_set, cmd_phase_mode_set,
  Handled, succeeding, after_sending, send_then, set_then, text_or_empty, handle,
  handle_charge_start, handle_charge_stop, handle_state_get_report, handle_cable_lock_set,
  handle_cable_lock_get_report, handle_set_current, handle_session_get_report,
  handle_max_current_set, handle_max_current_get_report, handle_phase_mode_set,
  handle_phase_mode_get_report, state_then, session_then, cable_lock_then, max_current_then,
  phase_mode_then,
}
use cliffhanger.Device.Chargepoint.Commands.{
  IsSafe, issued, max_current-IsSafe, offered_current-IsSafe, phase_mode-IsSafe, cable_lock-IsSafe,
  charging-IsSafe,
}

module _ {F : Type 0} where
  set_then-command :
      (x : Setting) (next : Chargepoint F → Handled F) (s : Chargepoint F)
      → (set_then x next s).command ≡ issued x
  set_then-command refused next s = refl
  set_then-command (called c false) next s = refl
  set_then-command (called c true) next s = refl

  send_then-command :
      (f : Chargepoint F → Chargepoint F × Sending (Payload F)) (s : Chargepoint F)
      → (send_then f succeeding s).command ≡ none
  send_then-command f s = by_result (f s).1 (f s).0
    where
      by_result :
          (r : Sending (Payload F)) (s' : Chargepoint F)
          → (after_sending r (succeeding s') s').command ≡ none
      by_result (sent m) s' = refl
      by_result skipped s' = refl
      by_result unsupported s' = refl
      by_result unread s' = refl
      by_result unsent s' = refl

  report_only :
      (f : Chargepoint F → Chargepoint F × Sending (Payload F)) (s : Chargepoint F) (c : Command)
      → (send_then f succeeding s).command ≡ some c
      → IsSafe s c
  report_only f s c h = absurd (let k = send_then-command f s in cc)

module _ (texts : Texts) (deep_equal : Reading texts.Float → Reading texts.Float → Bool)
    (obeys : Command → Bool) (calls : String → Call) (answers : Answers texts.Float) where
  -- Whatever the message, the controller is given no command but one that it implements, with a current
  -- between 6 and the maximum, a phase mode or a charging mode of the specification, or no charging mode.
  pub handle-IsSafe :
      (x : Incoming) (s : Chargepoint texts.Float) (c : Command)
      → (handle texts deep_equal obeys calls answers x s).command ≡ some c
      → IsSafe s c
  unfolding handle handle_charge_start handle_charge_stop stop_charging_by handle_state_get_report
      handle_cable_lock_set handle_cable_lock_get_report handle_set_current
      handle_session_get_report handle_max_current_set handle_max_current_get_report
      handle_phase_mode_set handle_phase_mode_get_report state_then session_then cable_lock_then
      max_current_then phase_mode_then
  handle-IsSafe (cmd_charge_start mode) s c h =
      charging-IsSafe texts obeys (text_or_empty mode) s c (sym (set_then-command _ _ s) ∙ h)
  handle-IsSafe cmd_charge_stop s c h =
      (let e : stop_charging ≡ c =
          cc (sym (set_then-command (called stop_charging (obeys stop_charging)) _ s) ∙ h) in
        subst (IsSafe s) e tt)
  handle-IsSafe cmd_state_get_report s c h =
      report_only
        (send_state_report texts deep_equal (calls evt_state_report) true answers.state_answer) s c
        h
  handle-IsSafe cmd_cable_lock_get_report s c h =
      report_only
        (send_cable_lock_report texts deep_equal (calls evt_cable_lock_report) true
          answers.cable_answer)
        s c h
  handle-IsSafe cmd_current_session_get_report s c h =
      report_only
        (send_current_session_report texts deep_equal (calls evt_current_session_report) true
          answers.session_answer)
        s c h
  handle-IsSafe cmd_max_current_get_report s c h =
      report_only
        (send_max_current_report texts deep_equal (calls evt_max_current_report) true
          answers.max_current_answer)
        s c h
  handle-IsSafe cmd_phase_mode_get_report s c h =
      report_only
        (send_phase_mode_report texts deep_equal (calls evt_phase_mode_report) true
          answers.phase_mode_answer)
        s c h
  handle-IsSafe (cmd_cable_lock_set none) s c h = absurd cc
  handle-IsSafe (cmd_cable_lock_set (some v)) s c h =
      cable_lock-IsSafe obeys v s c (sym (set_then-command _ _ s) ∙ h)
  handle-IsSafe (cmd_current_session_set_current none) s c h = absurd cc
  handle-IsSafe (cmd_current_session_set_current (some n)) s c h =
      offered_current-IsSafe obeys n s c (sym (set_then-command _ _ s) ∙ h)
  handle-IsSafe (cmd_max_current_set none) s c h = absurd cc
  handle-IsSafe (cmd_max_current_set (some n)) s c h =
      max_current-IsSafe obeys n s c (sym (set_then-command _ _ s) ∙ h)
  handle-IsSafe (cmd_phase_mode_set none) s c h = absurd cc
  handle-IsSafe (cmd_phase_mode_set (some m)) s c h =
      phase_mode-IsSafe obeys m s c (sym (set_then-command _ _ s) ∙ h)
