-- ===== src/Device/Chargepoint/Routing.antt =====
-- adapter/service/chargepoint/routing.go: the handlers of messages. The service of the message's topic and
-- the value of its payload, which may have another type, are arguments.
use cliffhanger.Prelude.{
  String, Bool, true, false, Option, none, some, List, [], ◌∷◌, nat_eq, string_eq,
}
use cliffhanger.Prelude.Int.{ℤ, int_eq}
use cliffhanger.Device.Report.{Call, Message, Sending, sent, skipped, unsupported, unread, unsent}
use cliffhanger.Device.Chargepoint.{
  Texts, Command, Reading, Payload, Chargepoint, Setting, refused, called,
  evt_current_session_report, evt_cable_lock_report, evt_state_report, evt_max_current_report,
  evt_phase_mode_report, start_charging_by, stop_charging_by, set_cable_lock_by,
  set_offered_current_by, set_max_current_by, set_phase_mode_by,
}
use cliffhanger.Device.Chargepoint.Reports.{
  Answers, send_current_session_report, send_cable_lock_report, send_state_report,
  send_max_current_report, send_phase_mode_report,
}

-- the messages, with the value that is read from each; none is a payload of another type
pub data Incoming : Type 0 where
  cmd_charge_start : Option String → Incoming
  cmd_charge_stop cmd_state_get_report cmd_cable_lock_get_report cmd_current_session_get_report
        cmd_max_current_get_report cmd_phase_mode_get_report :
      Incoming
  cmd_cable_lock_set : Option Bool → Incoming
  cmd_current_session_set_current cmd_max_current_set : Option ℤ → Incoming
  cmd_phase_mode_set : Option String → Incoming

-- what a handler does: the call of the controller, the messages that are sent, and whether it has an error
pub record Handled (F : Type 0) : Type 0 where
  pub service : Chargepoint F
  pub command : Option Command
  pub messages : List (Message (Payload F))
  pub has_error : Bool

-- a map's value for a key, which is empty when there is none
abbrev pub text_or_empty : Option String → String
text_or_empty none = ""
text_or_empty (some x) = x

module _ {F : Type 0} where
  abbrev pub failing : Chargepoint F → Handled F
  failing s = record { service = s; command = none; messages = []; has_error = true }

  abbrev pub succeeding : Chargepoint F → Handled F
  succeeding s = record { service = s; command = none; messages = []; has_error = false }

  -- what follows a report of a handler, and its error
  abbrev pub after_sending : Sending (Payload F) → Handled F → Chargepoint F → Handled F
  after_sending (sent m) h s = record h { messages = m ∷ h.messages }
  after_sending skipped h s = h
  after_sending unsupported h s = failing s
  after_sending unread h s = failing s
  after_sending unsent h s = failing s

  -- a report of a handler, and what follows it unless it has an error
  abbrev pub send_then :
      (Chargepoint F → Chargepoint F × Sending (Payload F))
      → (Chargepoint F → Handled F)
      → Chargepoint F
      → Handled F
  send_then f next s = let (s', result) = f s in after_sending result (next s') s'

  -- a setter of a handler, and what follows it unless it has an error
  abbrev pub set_then : Setting → (Chargepoint F → Handled F) → Chargepoint F → Handled F
  set_then refused next s = failing s
  set_then (called c false) next s = record (failing s) { command = some c }
  set_then (called c true) next s = record (next s) { command = some c }

-- a handler for a payload that may be of another type
abbrev pub with_value :
    {A F : Type 0} → Option A → (A → Chargepoint F → Handled F) → Chargepoint F → Handled F
with_value none f s = failing s
with_value (some a) f s = f a s

module _ (texts : Texts) (deep_equal : Reading texts.Float → Reading texts.Float → Bool)
    (obeys : Command → Bool) (calls : String → Call) (answers : Answers texts.Float) where
  abbrev pub Handler : Type 0
  Handler = Chargepoint texts.Float → Handled texts.Float

  unfoldable pub state_then : Handler → Handler
  unfolding send_state_report
  state_then next s =
      send_then
        (send_state_report texts deep_equal (calls evt_state_report) true answers.state_answer) next
        s

  unfoldable pub session_then : Handler → Handler
  unfolding send_current_session_report
  session_then next s =
      send_then
        (send_current_session_report texts deep_equal (calls evt_current_session_report) true
          answers.session_answer)
        next s

  unfoldable pub cable_lock_then : Handler → Handler
  unfolding send_cable_lock_report
  cable_lock_then next s =
      send_then
        (send_cable_lock_report texts deep_equal (calls evt_cable_lock_report) true
          answers.cable_answer)
        next s

  unfoldable pub max_current_then : Handler → Handler
  unfolding send_max_current_report
  max_current_then next s =
      send_then
        (send_max_current_report texts deep_equal (calls evt_max_current_report) true
          answers.max_current_answer)
        next s

  unfoldable pub phase_mode_then : Handler → Handler
  unfolding send_phase_mode_report
  phase_mode_then next s =
      send_then
        (send_phase_mode_report texts deep_equal (calls evt_phase_mode_report) true
          answers.phase_mode_answer)
        next s

  -- `handleCmdChargeStart`
  unfoldable pub handle_charge_start : Option String → Handler
  unfolding start_charging_by state_then session_then
  handle_charge_start mode s =
      set_then (start_charging_by texts obeys (text_or_empty mode) s)
        (state_then (session_then succeeding)) s

  -- `handleCmdChargeStop`
  unfoldable pub handle_charge_stop : Handler
  unfolding stop_charging_by state_then session_then
  handle_charge_stop s =
      set_then (stop_charging_by obeys s) (state_then (session_then succeeding)) s

  -- `handleCmdCableLockSet`
  unfoldable pub handle_cable_lock_set : Option Bool → Handler
  unfolding set_cable_lock_by cable_lock_then
  handle_cable_lock_set value =
      with_value value
        λ lock s. set_then (set_cable_lock_by obeys lock s) (cable_lock_then succeeding) s

  -- `handleCmdStateGetReport`
  unfoldable pub handle_state_get_report : Handler
  unfolding state_then
  handle_state_get_report = state_then succeeding

  -- `handleCmdCableLockGetReport`
  unfoldable pub handle_cable_lock_get_report : Handler
  unfolding cable_lock_then
  handle_cable_lock_get_report = cable_lock_then succeeding

  -- `handleCmdCurrentSessionSetCurrent`
  unfoldable pub handle_set_current : Option ℤ → Handler
  unfolding set_offered_current_by session_then
  handle_set_current value =
      with_value value
        λ n s. set_then (set_offered_current_by obeys n s) (session_then succeeding) s

  -- `handleCmdCurrentSessionGetReport`
  unfoldable pub handle_session_get_report : Handler
  unfolding session_then
  handle_session_get_report = session_then succeeding

  -- `handleCmdMaxCurrentSet`
  unfoldable pub handle_max_current_set : Option ℤ → Handler
  unfolding set_max_current_by max_current_then
  handle_max_current_set value =
      with_value value
        λ n s. set_then (set_max_current_by obeys n s) (max_current_then succeeding) s

  -- `handleCmdMaxCurrentGetReport`
  unfoldable pub handle_max_current_get_report : Handler
  unfolding max_current_then
  handle_max_current_get_report = max_current_then succeeding

  -- `handleCmdPhaseModeSet`
  unfoldable pub handle_phase_mode_set : Option String → Handler
  unfolding set_phase_mode_by phase_mode_then
  handle_phase_mode_set value =
      with_value value
        λ mode s. set_then (set_phase_mode_by obeys mode s) (phase_mode_then succeeding) s

  -- `handleCmdPhaseModeGetReport`
  unfoldable pub handle_phase_mode_get_report : Handler
  unfolding phase_mode_then
  handle_phase_mode_get_report = phase_mode_then succeeding

  -- `RouteService`: the handler of each type of message
  unfoldable pub handle : Incoming → Handler
  unfolding handle_charge_start handle_charge_stop handle_state_get_report handle_cable_lock_set
      handle_cable_lock_get_report handle_set_current handle_session_get_report
      handle_max_current_set handle_max_current_get_report handle_phase_mode_set
      handle_phase_mode_get_report
  handle (cmd_charge_start mode) = handle_charge_start mode
  handle cmd_charge_stop = handle_charge_stop
  handle cmd_state_get_report = handle_state_get_report
  handle (cmd_cable_lock_set v) = handle_cable_lock_set v
  handle cmd_cable_lock_get_report = handle_cable_lock_get_report
  handle (cmd_current_session_set_current v) = handle_set_current v
  handle cmd_current_session_get_report = handle_session_get_report
  handle (cmd_max_current_set v) = handle_max_current_set v
  handle cmd_max_current_get_report = handle_max_current_get_report
  handle (cmd_phase_mode_set v) = handle_phase_mode_set v
  handle cmd_phase_mode_get_report = handle_phase_mode_get_report
