-- ===== src/Device/Chargepoint/Task.antt =====
-- adapter/service/chargepoint/tasks.go: the periodic reports when nothing changes.
use cliffhanger.Prelude.{
  String, ◌≡◌, refl, inl, inr, Bool, true, false, not, Option, none, some, List, [], ◌∷◌,
  if◌then◌else◌, Bool-cases, nat_eq, string_eq, All,
}
use cliffhanger.Prelude.Int.{int_eq, Time}
use cliffhanger.Cache.Reporter.{Strategy, strategy_requires, ReportingCache, find}
use cliffhanger.Device.Report.{Call, Sending, sent, unsupported, send_report}
use cliffhanger.Device.Report.Laws.{noted_skips}
use cliffhanger.Device.Chargepoint.{
  Texts, Reading, session, cable, state, phase_mode, max_current, Chargepoint,
  evt_current_session_report, evt_cable_lock_report, evt_state_report, evt_max_current_report,
  evt_phase_mode_report, supports_adjusting_max_current, supports_adjusting_offered_current,
  is_phase_mode_aware, is_cable_lock_aware,
}
use cliffhanger.Device.Chargepoint.Reports.{
  Answers, reading_of, message_of, Sent, Step, run_steps, reporting_steps, send,
  send_current_session_report, send_cable_lock_report, send_state_report, send_max_current_report,
  send_phase_mode_report, send_chargepoint_reports,
}

-- The result is no message.
abbrev pub IsSilent : {P : Type 0} → Sending P → Type 0
IsSilent (sent m) = ⊥
IsSilent _ = Unit

module _ (texts : Texts) (deep_equal : Reading texts.Float → Reading texts.Float → Bool) where
  -- What the controller answers now is what was noted of the event last, and the strategy does not ask
  -- for it again; or the controller answers nothing.
  abbrev pub IsNoted :
      Strategy
      → Time
      → String
      → Option (Reading texts.Float)
      → ReportingCache (Reading texts.Float)
      → Type 0
  IsNoted strategy asked event none c = Unit
  IsNoted strategy asked event (some w) c =
      (v : Reading texts.Float) × (t : Time) × (find c event ""
        ≡ some (record { reported = t; val = v }))
      × (strategy_requires strategy asked (not (deep_equal v w)) t ≡ false)

  send_noted :
      (call : Call) (strategy : Strategy) (event : String) (reading : Option (Reading texts.Float))
      (s : Chargepoint texts.Float)
      → IsNoted strategy call.asked event reading s.cache
      → ((send texts deep_equal call false strategy event reading s).0 ≡ s)
        × IsSilent (send texts deep_equal call false strategy event reading s).1
  unfolding send send_report
  send_noted call strategy event none s h = (refl, tt)
  send_noted call strategy event (some w) s (v, t, found, quiet) =
      rw
        (noted_skips deep_equal call strategy event ""
          (message_of texts (supports_adjusting_offered_current s)) t v w s.cache found quiet)
        (refl, tt)

  abbrev IsQuiet : Chargepoint texts.Float → Step texts → Type 0
  IsQuiet s step = ((step.1 s).0 ≡ s) × IsSilent (step.1 s).1

  run_quiet :
      (steps : List (Step texts)) (s : Chargepoint texts.Float)
      → All (IsQuiet s) steps
      → ((run_steps texts steps s).0 ≡ s) × All IsSilent (run_steps texts steps s).1
  unfolding run_steps
  run_quiet [] s h = (refl, tt)
  run_quiet ((condition, f) ∷ steps) s ((same, silent), h) =
      let (a, b) = run_quiet steps s h in
      elim (Bool-cases (condition s)) [
        | inl q ↦ rw (q, same) (a, (silent, b))
        | inr q ↦ rw q (a, b)
      ]

  guarded_quiet :
      (b : Bool) (x : Sent texts) (s : Chargepoint texts.Float)
      → (x.0 ≡ s) × IsSilent x.1
      → let y : Sent texts = if b then x else (s, unsupported) in (y.0 ≡ s) × IsSilent y.1
  guarded_quiet true x s h = h
  guarded_quiet false x s h = (refl, tt)

  -- While every answer of the controller is noted and its strategy does not ask for it again, the periodic
  -- task sends nothing and leaves the service as it is.
  pub send_chargepoint_reports-quiet :
      (calls : String → Call) (answers : Answers texts.Float) (s : Chargepoint texts.Float)
      → IsNoted s.session_strategy
          (calls evt_current_session_report).asked
          evt_current_session_report
          (reading_of session answers.session_answer)
          s.cache
      → IsNoted s.state_strategy
          (calls evt_state_report).asked
          evt_state_report
          (reading_of state answers.state_answer)
          s.cache
      → IsNoted s.state_strategy
          (calls evt_max_current_report).asked
          evt_max_current_report
          (reading_of max_current answers.max_current_answer)
          s.cache
      → IsNoted s.state_strategy
          (calls evt_phase_mode_report).asked
          evt_phase_mode_report
          (reading_of phase_mode answers.phase_mode_answer)
          s.cache
      → IsNoted s.state_strategy
          (calls evt_cable_lock_report).asked
          evt_cable_lock_report
          (reading_of cable answers.cable_answer)
          s.cache
      → ((send_chargepoint_reports texts deep_equal calls answers s).0 ≡ s)
        × All IsSilent (send_chargepoint_reports texts deep_equal calls answers s).1
  unfolding send_chargepoint_reports reporting_steps send_current_session_report send_state_report
      send_max_current_report send_phase_mode_report send_cable_lock_report
  send_chargepoint_reports-quiet calls answers s h1 h2 h3 h4 h5 =
      run_quiet (reporting_steps texts deep_equal calls answers) s (
        send_noted (calls evt_current_session_report) s.session_strategy _
            (reading_of session answers.session_answer) s h1,
        (
          send_noted (calls evt_state_report) s.state_strategy _
              (reading_of state answers.state_answer) s h2,
          (
            guarded_quiet (supports_adjusting_max_current s) _ s (
                send_noted (calls evt_max_current_report) s.state_strategy _
                  (reading_of max_current answers.max_current_answer) s h3),
            (
              guarded_quiet (is_phase_mode_aware s) _ s (
                  send_noted (calls evt_phase_mode_report) s.state_strategy _
                    (reading_of phase_mode answers.phase_mode_answer) s h4),
              (
                guarded_quiet (is_cable_lock_aware s) _ s (
                    send_noted (calls evt_cable_lock_report) s.state_strategy _
                      (reading_of cable answers.cable_answer) s h5),
                tt,
              ),
            ),
          ),
        ),
      )
