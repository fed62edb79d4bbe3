-- ===== src/Device/Chargepoint/Reports.antt =====
-- adapter/service/chargepoint/service.go, model.go and tasks.go: the reports of a charger, and the periodic
-- task that sends them.
use cliffhanger.Prelude.{
  String, Bool, true, false, Option, none, some, List, [], ◌∷◌, if◌then◌else◌, nat_eq, string_eq,
}
use cliffhanger.Prelude.Int.{ℤ, int_eq, is_zero}
use cliffhanger.Prelude.Dict.{Dict, insert}
use cliffhanger.Cache.Reporter.{Strategy}
use cliffhanger.Device.Report.{Call, Message, Sending, unsupported, send_report}
use cliffhanger.Device.Chargepoint.{
  Texts, CableReport, SessionReport, Reading, session, cable, state, phase_mode, max_current,
  Payload, float_payload, bool_payload, string_payload, int_payload, Chargepoint,
  evt_current_session_report, evt_cable_lock_report, evt_state_report, evt_max_current_report,
  evt_phase_mode_report, has_any, supports_adjusting_max_current,
  supports_adjusting_offered_current, is_phase_mode_aware, supports_adjusting_phase_modes,
  is_cable_lock_aware,
}

-- what the methods of a controller answer; none is an error
pub record Answers (Float : Type 0) : Type 0 where
  pub session_answer : Option (SessionReport Float)
  pub cable_answer : Option CableReport
  pub state_answer : Option String
  pub max_current_answer : Option ℤ
  pub phase_mode_answer : Option String

-- a value that is answered, as it is reported
abbrev pub reading_of {ℓ κ} : {A : Type ℓ} {B : Type κ} → (A → B) → Option A → Option B
reading_of f none = none
reading_of f (some a) = some (f a)

module _ (texts : Texts) where
  -- `reportProperties` of a cable report
  unfoldable pub cable_properties : CableReport → Dict String
  cable_properties r = elim r.cable_current [
    | none ↦ []
    | some n ↦ ("cable_current", texts.format_int n) ∷ []
  ]

  -- `reportProperties` of a session report
  unfoldable pub session_properties : Bool → SessionReport texts.Float → Dict String
  unfolding insert
  session_properties supports_adjusting_current r =
      let p1 =
        if texts.is_positive r.previous_session_energy
        then insert "previous_session" (texts.format_float r.previous_session_energy) []
        else [] in
      let p2 =
        if is_zero r.started_at
        then p1
        else insert "started_at" (texts.format_time r.started_at) p1 in
      let p3 =
        if is_zero r.finished_at
        then p2
        else insert "finished_at" (texts.format_time r.finished_at) p2 in
      if supports_adjusting_current
      then insert "offered_current" (texts.format_int r.offered_current) p3
      else p3

  -- the message that a method makes of what it read; `adjusts` is `SupportsAdjustingOfferedCurrent`
  unfoldable pub message_of : Bool → Reading texts.Float → Message (Payload texts.Float)
  unfolding session_properties cable_properties
  message_of adjusts (session r) = record {
    event = evt_current_session_report;
    payload = float_payload r.session_energy;
    properties = session_properties adjusts r;
  }
  message_of adjusts (cable r) = record {
    event = evt_cable_lock_report;
    payload = bool_payload r.cable_lock;
    properties = cable_properties r;
  }
  message_of adjusts (state x) = record {
    event = evt_state_report;
    payload = string_payload x;
    properties = [];
  }
  message_of adjusts (phase_mode x) = record {
    event = evt_phase_mode_report;
    payload = string_payload x;
    properties = [];
  }
  message_of adjusts (max_current n) = record {
    event = evt_max_current_report;
    payload = int_payload n;
    properties = [];
  }

  abbrev pub Sent : Type 0
  Sent = Chargepoint texts.Float × Sending (Payload texts.Float)

  module _ (deep_equal : Reading texts.Float → Reading texts.Float → Bool) where
    -- the part of the five methods after the search for the controller
    unfoldable pub send :
        Call
        → Bool
        → Strategy
        → String
        → Option (Reading texts.Float)
        → Chargepoint texts.Float
        → Sent
    unfolding send_report message_of supports_adjusting_offered_current
    send call force strategy event reading s =
        let adjusts = supports_adjusting_offered_current s in
        let (c, result) =
          send_report deep_equal call force strategy event "" (message_of adjusts) reading
            s.cache in
        (record s { cache = c }, result)

    -- `SendCurrentSessionReport`
    unfoldable pub send_current_session_report :
        Call → Bool → Option (SessionReport texts.Float) → Chargepoint texts.Float → Sent
    unfolding send
    send_current_session_report call force answer s =
        send call force s.session_strategy evt_current_session_report (reading_of session answer) s

    -- `SendCableLockReport`
    unfoldable pub send_cable_lock_report :
        Call → Bool → Option CableReport → Chargepoint texts.Float → Sent
    unfolding send is_cable_lock_aware
    send_cable_lock_report call force answer s =
        if is_cable_lock_aware s
        then send call force s.state_strategy evt_cable_lock_report (reading_of cable answer) s
        else (s, unsupported)

    -- `SendStateReport`
    unfoldable pub send_state_report : Call → Bool → Option String → Chargepoint texts.Float → Sent
    unfolding send
    send_state_report call force answer s =
        send call force s.state_strategy evt_state_report (reading_of state answer) s

    -- `SendMaxCurrentReport`
    unfoldable pub send_max_current_report : Call → Bool → Option ℤ → Chargepoint texts.Float → Sent
    unfolding send supports_adjusting_max_current
    send_max_current_report call force answer s =
        if supports_adjusting_max_current s
        then send call force s.state_strategy evt_max_current_report (reading_of max_current answer)
            s
        else (s, unsupported)

    -- `SendPhaseModeReport`
    unfoldable pub send_phase_mode_report :
        Call → Bool → Option String → Chargepoint texts.Float → Sent
    unfolding send is_phase_mode_aware
    send_phase_mode_report call force answer s =
        if is_phase_mode_aware s
        then send call force s.state_strategy evt_phase_mode_report (reading_of phase_mode answer) s
        else (s, unsupported)

  abbrev pub Step : Type 0
  Step = (Chargepoint texts.Float → Bool) × (Chargepoint texts.Float → Sent)

  -- the calls of `sendChargepointReports`, each with its condition: the state, and the results of those
  -- that are made, in their order
  unfoldable pub run_steps :
      List Step
      → Chargepoint texts.Float
      → Chargepoint texts.Float × List (Sending (Payload texts.Float))
  run_steps [] s = (s, [])
  run_steps ((condition, f) ∷ steps) s =
      let (s', result) = f s in
      let (made, results) = run_steps steps s' in
      let (left, others) = run_steps steps s in
      if condition s then (made, result ∷ results) else (left, others)

  module _ (deep_equal : Reading texts.Float → Reading texts.Float → Bool) where
    unfoldable pub reporting_steps : (String → Call) → Answers texts.Float → List Step
    unfolding send_current_session_report send_state_report send_max_current_report
        send_phase_mode_report send_cable_lock_report
    reporting_steps calls answers =
        (
          λ _. true,
          send_current_session_report deep_equal (calls evt_current_session_report) false
              answers.session_answer,
        )
        ∷ (
          λ s. has_any s.specification.sup_states,
          send_state_report deep_equal (calls evt_state_report) false answers.state_answer,
        )
        ∷ (
          supports_adjusting_max_current,
          send_max_current_report deep_equal (calls evt_max_current_report) false
              answers.max_current_answer,
        )
        ∷ (
          supports_adjusting_phase_modes,
          send_phase_mode_report deep_equal (calls evt_phase_mode_report) false
              answers.phase_mode_answer,
        )
        ∷ (
          is_cable_lock_aware,
          send_cable_lock_report deep_equal (calls evt_cable_lock_report) false
              answers.cable_answer,
        )
        ∷ []

    -- `sendChargepointReports`; errors are only logged. Each report has its own call of the outside.
    unfoldable pub send_chargepoint_reports :
        (String → Call)
        → Answers texts.Float
        → Chargepoint texts.Float
        → Chargepoint texts.Float × List (Sending (Payload texts.Float))
    unfolding run_steps reporting_steps
    send_chargepoint_reports calls answers s = run_steps (reporting_steps calls answers) s
