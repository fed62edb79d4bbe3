-- ===== src/Device/Chargepoint/Examples.antt =====
-- adapter/service/chargepoint: concrete runs.
use cliffhanger.Prelude.{
  ℕ, String, ◌≡◌, refl, Bool, true, false, none, some, [], ◌∷◌, str_eq, ltb, nat_eq, string_eq, All,
}
use cliffhanger.Prelude.Int.{pos, int_eq}
use cliffhanger.Prelude.Dict.{lookup, insert}
use cliffhanger.Cache.Reporter.{find, reported, strategy_requires}
use cliffhanger.Device.Report.{Call, Message}
use cliffhanger.Device.Chargepoint.{
  Texts, Command, set_max_current, Reading, state, Payload, int_payload, Chargepoint,
  evt_max_current_report, evt_state_report, new_service,
}
use cliffhanger.Device.Chargepoint.Reports.{Answers, send_chargepoint_reports}
use cliffhanger.Device.Chargepoint.Routing.{cmd_max_current_set, handle}
use cliffhanger.Device.Chargepoint.Commands.{IsSafe}
use cliffhanger.Device.Chargepoint.Handlers.{handle-IsSafe}
use cliffhanger.Device.Chargepoint.Task.{IsSilent, send_chargepoint_reports-quiet}

-- energy in whole watt hours
abbrev texts : Texts
texts = record {
  Float = ℕ;
  is_positive = λ n. ltb 0 n;
  format_float = λ n. "1.00";
  format_int = λ n. "16";
  format_time = λ t. "2024-01-01T00:00:00Z";
  to_lower = λ s. s;
}

-- reports of states are compared, and all others differ
abbrev deep_equal : Reading ℕ → Reading ℕ → Bool
deep_equal (state a) (state b) = str_eq a b
deep_equal _ _ = false

abbrev easee : Chargepoint ℕ
easee =
    new_service
      (record {
        sup_max_current = some (pos 16);
        sup_states = "charging" ∷ [];
        sup_charging_modes = "slow" ∷ [];
        sup_phase_modes = [];
      })
      (record {
        adjusts_max_current = true;
        adjusts_offered_current = false;
        knows_phase_mode = false;
        adjusts_phase_mode = false;
        knows_cable_lock = false;
        adjusts_cable_lock = false;
      })
      none none

abbrev calls : String → Call
calls event = record { asked = 100; noted = 101; is_taken = true }

abbrev answers : Answers ℕ
answers = record {
  session_answer = none;
  cable_answer = none;
  state_answer = some "charging";
  max_current_answer = some (pos 10);
  phase_mode_answer = none;
}

abbrev obeys : Command → Bool
obeys c = true

handle-IsSafe_example : IsSafe easee (set_max_current (pos 10))
unfolding new_service handle
handle-IsSafe_example =
    handle-IsSafe texts deep_equal obeys calls answers (cmd_max_current_set (some (pos 10))) easee
      (set_max_current (pos 10)) refl

abbrev report_of_max : Message (Payload ℕ)
report_of_max = record {
  event = evt_max_current_report;
  payload = int_payload (pos 10);
  properties = [];
}

too_high_test :
    (handle texts deep_equal obeys calls answers
      (cmd_max_current_set (some (pos 17)))
      easee).command
    ≡ none
unfolding handle new_service
too_high_test = refl

-- an answer for the state alone
abbrev state_only : Answers ℕ
state_only = record answers { max_current_answer = none }

abbrev noted : Chargepoint ℕ
noted = record easee { cache = reported 50 evt_state_report "" (state "charging") [] }

send_chargepoint_reports-quiet_example :
    ((send_chargepoint_reports texts deep_equal calls state_only noted).0 ≡ noted)
    × All IsSilent (send_chargepoint_reports texts deep_equal calls state_only noted).1
unfolding new_service find reported lookup insert strategy_requires
send_chargepoint_reports-quiet_example =
    send_chargepoint_reports-quiet texts deep_equal calls state_only noted tt
      (state "charging", 50, refl, refl) tt tt tt
