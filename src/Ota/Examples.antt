-- ===== src/Ota/Examples.antt =====
-- Instances of the laws of updates over the air.
use cliffhanger.Prelude.{◌≡◌, refl, true, some, [], ◌∷◌, nat_eq, string_eq, All}
use cliffhanger.Prelude.Int.{pos, int_eq}
use cliffhanger.Prelude.Dict.{insert}
use cliffhanger.Ota.{
  status_in_progress, StatusReport, progress_report, finished, invalid_report, send_status_report,
}
use cliffhanger.Ota.Reports.{IsReport, send_status_report-IsReport}

abbrev halfway : StatusReport
halfway = record {
  status = status_in_progress;
  progress_data = record {
    progress = pos 50;
    remaining_minutes = pos 0;
    remaining_seconds = pos 30;
  };
  result_error = "";
}

halfway_sent :
    send_status_report (some halfway) true
    ≡ (finished, progress_report (("progress", pos 50) ∷ ("remaining_sec", pos 30) ∷ []) ∷ [])
unfolding send_status_report insert
halfway_sent = refl

too_far :
    send_status_report
      (some
        (record halfway { progress_data = record halfway.progress_data { progress = pos 101 } }))
      true
    ≡ (invalid_report, [])
unfolding send_status_report
too_far = refl

send_status_report-IsReport_example : All IsReport (send_status_report (some halfway) true).1
send_status_report-IsReport_example = send_status_report-IsReport (some halfway) true
