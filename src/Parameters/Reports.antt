-- ===== src/Parameters/Reports.antt =====
-- adapter/service/parameters/service.go: the reports of parameters. What the controller answers, the clock
-- and the transport are arguments.
use cliffhanger.Prelude.{
  String, ◌≡◌, refl, ap, ◌∙◌, inl, inr, Bool, true, false, not, ◌&&◌, Option, none, some, List, [],
  ◌∷◌, if◌then◌else◌, Bool-cases, nat_eq, string_eq,
}
use cliffhanger.Prelude.Int.{int_eq}
use cliffhanger.Cache.Reporter.{
  Strategy, on_change_only, ReportingCache, new_reporting_cache, report_required,
}
use cliffhanger.Cache.Reporter.Laws.{report_required-new}
use cliffhanger.Device.Report.{Call, Sending, sent, skipped, unread, unsent}
use cliffhanger.Parameters.{Parameter, ParameterSpecification}

-- what is reported
pub data ParameterReading (Float : Type 0) : Type 0 where
  parameter : Parameter → ParameterReading Float
  specifications : List (ParameterSpecification Float) → ParameterReading Float

abbrev pub evt_param_report : String
evt_param_report = "evt.param.report"

abbrev pub evt_sup_params_report : String
evt_sup_params_report = "evt.sup_params.report"

-- the service: its reporting strategy is fixed
pub record ParameterService (Float : Type 0) : Type 0 where
  pub reporting_cache : ReportingCache (ParameterReading Float)
  pub reporting_strategy : Strategy

module _ {F : Type 0} where
  -- `NewService`
  unfoldable pub new_parameter_service : ParameterService F
  unfolding new_reporting_cache
  new_parameter_service = record {
    reporting_cache = new_reporting_cache;
    reporting_strategy = on_change_only;
  }

  module _ (deep_equal : ParameterReading F → ParameterReading F → Bool) where
    -- the part of both methods once the value is read: nothing is noted
    unfoldable pub report_reading :
        Call
        → Bool
        → String
        → ParameterReading F
        → ParameterService F
        → ParameterService F × Sending (ParameterReading F)
    unfolding report_required
    report_reading call force event v s =
        if not force
          && not (
              report_required deep_equal call.asked s.reporting_cache s.reporting_strategy event ""
                v)
        then (s, skipped)
        else if call.is_taken
        then (s, sent (record { event = event; payload = v; properties = [] }))
        else (s, unsent)

    -- `SendParameterReport`, on what the controller answers for the id
    unfoldable pub send_parameter_report :
        Call
        → Bool
        → Option Parameter
        → ParameterService F
        → ParameterService F × Sending (ParameterReading F)
    unfolding report_reading
    send_parameter_report call force none s = (s, unread)
    send_parameter_report call force (some p) s =
        report_reading call force evt_param_report (parameter p) s

    -- `SendSupportedParamsReport`
    unfoldable pub send_supported_params_report :
        Call
        → Bool
        → Option (List (ParameterSpecification F))
        → ParameterService F
        → ParameterService F × Sending (ParameterReading F)
    unfolding report_reading
    send_supported_params_report call force none s = (s, unread)
    send_supported_params_report call force (some ss) s =
        report_reading call force evt_sup_params_report (specifications ss) s

-- the calls of both methods
pub data ReportCall (F : Type 0) : Type 0 where
  one : Call → Bool → Option Parameter → ReportCall F
  all : Call → Bool → Option (List (ParameterSpecification F)) → ReportCall F

module _ {F : Type 0} (deep_equal : ParameterReading F → ParameterReading F → Bool) where
  unfoldable pub report_runs : List (ReportCall F) → ParameterService F → ParameterService F
  unfolding send_parameter_report send_supported_params_report
  report_runs [] s = s
  report_runs (one call force p ∷ calls) s =
      report_runs calls (send_parameter_report deep_equal call force p s).0
  report_runs (all call force ss ∷ calls) s =
      report_runs calls (send_supported_params_report deep_equal call force ss s).0

  reading_keeps :
      (call : Call) (force : Bool) (event : String) (v : ParameterReading F)
      (s : ParameterService F)
      → (report_reading deep_equal call force event v s).0 ≡ s
  unfolding report_reading
  reading_keeps call force event v s =
      elim (Bool-cases (
        not force
        && not (
            report_required deep_equal call.asked s.reporting_cache s.reporting_strategy event ""
              v))) [
                | inl a ↦ rw a refl
                | inr a ↦ elim (Bool-cases call.is_taken) [
                  | inl b ↦ rw (a, b) refl
                  | inr b ↦ rw (a, b) refl
                ]
              ]

  runs_keep : (calls : List (ReportCall F)) (s : ParameterService F) → report_runs calls s ≡ s
  unfolding report_runs send_parameter_report send_supported_params_report
  runs_keep [] s = refl
  runs_keep (one call force none ∷ calls) s = runs_keep calls s
  runs_keep (one call force (some p) ∷ calls) s =
      ap (report_runs calls) (reading_keeps call force _ (parameter p) s) ∙ runs_keep calls s
  runs_keep (all call force none ∷ calls) s = runs_keep calls s
  runs_keep (all call force (some ss) ∷ calls) s =
      ap (report_runs calls) (reading_keeps call force _ (specifications ss) s) ∙ runs_keep calls s

  -- Although the strategy is to report changes only, an unforced report of a parameter is sent again after
  -- any calls, the same report among them, whenever the controller answers and the transport takes it.
  pub send_parameter_report-again :
      (calls : List (ReportCall F)) (call : Call) (p : Parameter)
      → call.is_taken ≡ true
      → (send_parameter_report deep_equal call false
          (some p)
          (report_runs calls new_parameter_service)).1
        ≡ sent (record { event = evt_param_report; payload = parameter p; properties = [] })
  unfolding send_parameter_report report_reading new_parameter_service
  send_parameter_report-again calls call p k =
      rw
        (
          runs_keep calls new_parameter_service,
          report_required-new deep_equal call.asked on_change_only evt_param_report ""
              (parameter p),
          k,
        )
        refl
