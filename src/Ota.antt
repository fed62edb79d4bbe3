-- ===== src/Ota.antt =====
-- adapter/service/ota/model.go and service.go: the reports of updates over the air. What the controller
-- answers, and whether a message can be sent, are arguments.
mod Reports
mod Examples
use cliffhanger.Prelude.{
  String, Bool, true, false, not, ◌||◌, Option, none, some, List, [], ◌∷◌, str_eq, if◌then◌else◌,
  nat_eq, string_eq, contains,
}
use cliffhanger.Prelude.Int.{ℤ, pos, ltb_ℤ, eqb_ℤ, int_eq}
use cliffhanger.Prelude.Dict.{Dict, insert}

-- `Status`, an int
abbrev pub status_idle : ℤ
status_idle = pos 0

abbrev pub status_started : ℤ
status_started = pos 1

abbrev pub status_in_progress : ℤ
status_in_progress = pos 2

abbrev pub status_done : ℤ
status_done = pos 3

-- `allowedStatuses`
abbrev pub allowed_statuses : List ℤ
allowed_statuses = status_idle ∷ status_started ∷ status_in_progress ∷ status_done ∷ []

-- `allowedErrors`
abbrev pub allowed_errors : List String
allowed_errors =
    "low_battery" ∷ "invalid_image" ∷ "not_upgradable" ∷ "needs_user_action" ∷ "other" ∷ "" ∷ []

pub record ProgressData : Type 0 where
  pub progress : ℤ
  pub remaining_minutes : ℤ
  pub remaining_seconds : ℤ

pub record StatusReport : Type 0 where
  pub status : ℤ
  pub progress_data : ProgressData
  pub result_error : String

-- `isValid` of a status
unfoldable pub is_valid_status : ℤ → Bool
unfolding contains
is_valid_status s = contains allowed_statuses s

-- `isValid` of an error
unfoldable pub is_valid_error : String → Bool
unfolding contains
is_valid_error e = contains allowed_errors e

-- `validate` of progress data: whether there is no error
unfoldable pub validate_progress : ProgressData → Bool
validate_progress d =
    if ltb_ℤ d.progress (pos 0) || ltb_ℤ (pos 100) d.progress
    then false
    else if ltb_ℤ d.remaining_minutes (pos 0)
    then false
    else if ltb_ℤ d.remaining_seconds (pos 0)
    then false
    else true

-- `validate` of a report: whether there is no error
unfoldable pub validate : StatusReport → Bool
unfolding is_valid_status is_valid_error validate_progress
validate r =
    if not (is_valid_status r.status)
    then false
    else if eqb_ℤ r.status status_in_progress
    then validate_progress r.progress_data
    else if eqb_ℤ r.status status_done
    then is_valid_error r.result_error
    else true

-- the messages: an end report holds the success and the error
pub data OtaMessage : Type 0 where
  start_report : OtaMessage
  progress_report : Dict ℤ → OtaMessage
  end_report : Bool → String → OtaMessage

-- `newProgressReport`
unfoldable pub new_progress_report : ProgressData → OtaMessage
unfolding insert
new_progress_report d =
    let value = ("progress", d.progress) ∷ [] in
    let with_min =
      if ltb_ℤ (pos 0) d.remaining_minutes
      then insert "remaining_min" d.remaining_minutes value
      else value in
    progress_report (
      if ltb_ℤ (pos 0) d.remaining_seconds
      then insert "remaining_sec" d.remaining_seconds with_min
      else with_min)

-- `newEndReport`
unfoldable pub new_end_report : String → OtaMessage
new_end_report e = end_report (str_eq e "") e

pub data Outcome : Type 0 where
  no_report invalid_report not_sent finished : Outcome

abbrev pub send : Bool → OtaMessage → Outcome × List OtaMessage
send can_send m = if can_send then (finished, m ∷ []) else (not_sent, [])

-- the switch of `SendStatusReport`, for a report that is valid
unfoldable pub send_valid : Bool → StatusReport → Outcome × List OtaMessage
unfolding new_progress_report new_end_report
send_valid can_send r =
    if eqb_ℤ r.status status_idle
    then (finished, [])
    else if eqb_ℤ r.status status_started
    then send can_send start_report
    else if eqb_ℤ r.status status_in_progress
    then send can_send (new_progress_report r.progress_data)
    else send can_send (new_end_report r.result_error)

-- `SendStatusReport`: how it ends and what is sent
unfoldable pub send_status_report : Option StatusReport → Bool → Outcome × List OtaMessage
unfolding validate send_valid
send_status_report none can_send = (no_report, [])
send_status_report (some r) can_send =
    if validate r then send_valid can_send r else (invalid_report, [])
