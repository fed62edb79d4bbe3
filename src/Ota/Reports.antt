-- ===== src/Ota/Reports.antt =====
-- The reports that are sent are well formed (adapter/service/ota).
use cliffhanger.Prelude.{
  String, ◌≡◌, ◌≢◌, ◌↔◌, inl, inr, Bool, true, false, Option, none, some, arith, eq_iff, Bool-cases,
  nat_eq, string_eq, All, contains,
}
use cliffhanger.Prelude.Int.{ℤ, pos, negsuc, ◌≤ℤ◌, ◌<ℤ◌, eqb_ℤ, int_eq}
use cliffhanger.Prelude.Dict.{lookup, insert}
use cliffhanger.Ota.{
  status_idle, status_started, status_in_progress, status_done, allowed_errors, ProgressData,
  StatusReport, is_valid_status, is_valid_error, validate_progress, validate, OtaMessage,
  start_report, progress_report, end_report, new_progress_report, new_end_report, send, send_valid,
  send_status_report,
}

abbrev IsAbsentOrPositive : Option ℤ → Type 0
IsAbsentOrPositive none = Unit
IsAbsentOrPositive (some v) = pos 0 <ℤ v

abbrev IsPercentage : Option ℤ → Type 0
IsPercentage none = Unit
IsPercentage (some v) = (pos 0 ≤ℤ v) × (v ≤ℤ pos 100)

-- A progress report holds a percentage and remaining times that are positive if they are given, and an
-- end report tells of success exactly when its error is empty.
pub IsReport : OtaMessage → Type 0
IsReport start_report = Unit
IsReport (progress_report d) =
    (lookup "progress" d ≢ none)
    × IsPercentage (lookup "progress" d)
    × IsAbsentOrPositive (lookup "remaining_min" d)
    × IsAbsentOrPositive (lookup "remaining_sec" d)
IsReport (end_report success err) =
    ((success ≡ true) ↔ (err ≡ "")) × (contains allowed_errors err ≡ true)

progress-IsReport :
    (d : ProgressData) → validate_progress d ≡ true → IsReport (new_progress_report d)
unfolding IsReport validate_progress new_progress_report lookup insert
progress-IsReport d h = (ground arith, ground arith, ground arith, ground arith)

end-IsReport : (err : String) → is_valid_error err ≡ true → IsReport (new_end_report err)
unfolding IsReport is_valid_error new_end_report
end-IsReport err h = (ground (arith, eq_iff err ""), h)

send-All : (can_send : Bool) (m : OtaMessage) → IsReport m → All IsReport (send can_send m).1
send-All true m i = (i, tt)
send-All false m i = tt

valid_progress :
    (r : StatusReport)
    → validate r ≡ true
    → eqb_ℤ r.status status_in_progress ≡ true
    → validate_progress r.progress_data ≡ true
unfolding validate
valid_progress r h q = ground arith

valid_status : (r : StatusReport) → validate r ≡ true → is_valid_status r.status ≡ true
unfolding validate
valid_status r h = ground arith

done_status :
    (s : ℤ)
    → is_valid_status s ≡ true
    → eqb_ℤ s status_idle ≡ false
    → eqb_ℤ s status_started ≡ false
    → eqb_ℤ s status_in_progress ≡ false
    → s ≡ status_done
unfolding is_valid_status contains
done_status (pos n) v i j k = ground arith
done_status (negsuc n) v i j k = ground arith

valid_error :
    (r : StatusReport)
    → validate r ≡ true
    → r.status ≡ status_done
    → is_valid_error r.result_error ≡ true
unfolding validate is_valid_status contains
valid_error r h q = rw q at h

send_valid-All :
    (can_send : Bool) (r : StatusReport)
    → validate r ≡ true
    → All IsReport (send_valid can_send r).1
unfolding IsReport send_valid
send_valid-All can_send r h = elim (Bool-cases (eqb_ℤ r.status status_idle)) [
  | inl i ↦ rw (i) tt
  | inr i ↦ elim (Bool-cases (eqb_ℤ r.status status_started)) [
    | inl j ↦ rw (i, j) (send-All can_send start_report tt)
    | inr j ↦ elim (Bool-cases (eqb_ℤ r.status status_in_progress)) [
      | inl k ↦
          rw (i, j, k)
            (send-All can_send (new_progress_report r.progress_data)
              (progress-IsReport r.progress_data (valid_progress r h k)))
      | inr k ↦
          (let d = done_status r.status (valid_status r h) i j k in
            rw (i, j, k)
              (send-All can_send (new_end_report r.result_error)
                (end-IsReport r.result_error (valid_error r h d))))
    ]
  ]
]

-- Whatever the controller reports, only well-formed reports are sent: a start, a percentage between 0 and
-- 100 with remaining times that are positive where they are given, or an end with an allowed error that
-- is empty exactly on success.
pub send_status_report-IsReport :
    (o : Option StatusReport) (can_send : Bool) → All IsReport (send_status_report o can_send).1
unfolding send_status_report
send_status_report-IsReport none can_send = tt
send_status_report-IsReport (some r) can_send = elim (Bool-cases (validate r)) [
  | inl v ↦ rw (v, send_status_report) (send_valid-All can_send r v)
  | inr v ↦ rw (v, send_status_report) tt
]
