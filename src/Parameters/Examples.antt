-- ===== src/Parameters/Examples.antt =====
-- Instances of the laws of parameters.
use cliffhanger.Prelude.{
  ℕ, ◌≡◌, refl, Bool, true, false, none, some, [], ◌∷◌, str_eq, if◌then◌else◌, nat_eq, string_eq,
}
use cliffhanger.Prelude.Int.{pos, negsuc, eqb_ℤ, int_eq}
use cliffhanger.Parameters.{
  value_type_int, value_type_string_array, widget_type_input, widget_type_select,
  widget_type_multi_select, Codec, signed, unsigned, text, Parameter, ParameterSpecification,
  accepted, too_high, int_value, string_value, bool_value, int_array_value, string_array_value,
  validate, validate_parameter, new_int_parameter, new_string_parameter, new_bool_parameter,
  new_int_array_parameter, new_string_array_parameter,
}
use cliffhanger.Parameters.Service.{done, set_parameter}
use cliffhanger.Parameters.Trips.{
  IsWritable, IsSent, set_parameter-IsSent, IsValid, new_parameter-IsValid,
}
use cliffhanger.Device.Report.{Call, sent}
use cliffhanger.Parameters.Reports.{
  ParameterReading, parameter, evt_param_report, new_parameter_service, send_parameter_report, one,
  report_runs, send_parameter_report-again,
}

-- JSON of some values
abbrev codec : Codec
codec = record {
  Float = ℕ;
  truncate = λ f. pos f;
  decode_int = λ t. if str_eq t "7" then some (pos 7) else none;
  decode_string = λ t. some t;
  decode_bool = λ t. some (str_eq t "true");
  decode_int_array = λ t. some [];
  decode_string_array = λ t. some (t ∷ t ∷ []);
  encode_int = λ v. if eqb_ℤ v (pos 7) then "7" else "0";
  encode_string = λ v. v;
  encode_bool = λ b. if b then "true" else "false";
  encode_int_array = λ v. "";
  encode_string_array = λ v. "";
}

abbrev bounded : ParameterSpecification ℕ
bounded = record {
  spec_id = "1";
  spec_value_type = value_type_int;
  widget_type = widget_type_input;
  options = [];
  min = some (negsuc 4);
  max = some (pos 10);
  read_only = false;
}

abbrev selected : ParameterSpecification ℕ
selected = record bounded {
  spec_id = "2";
  widget_type = widget_type_select;
  options = signed (pos 3) ∷ text "x" ∷ unsigned 7 ∷ [];
}

abbrev several : ParameterSpecification ℕ
several = record selected {
  spec_id = "3";
  spec_value_type = value_type_string_array;
  widget_type = widget_type_multi_select;
}

abbrev seven : Parameter
seven = record { id = "1"; value_type = value_type_int; value = "7" }

abbrev texts : Parameter
texts = record { id = "3"; value_type = value_type_string_array; value = "x" }

above : validate_parameter codec (record bounded { max = some (pos 6) }) seven ≡ too_high
unfolding validate_parameter
above = refl

set_seven :
    set_parameter codec (some (selected ∷ bounded ∷ [])) (λ p. true) seven ≡ (done, seven ∷ [])
unfolding set_parameter validate validate_parameter
set_seven = refl

seven_bounded : validate_parameter codec bounded seven ≡ accepted
unfolding validate_parameter
seven_bounded = refl

option_seven : validate_parameter codec selected seven ≡ accepted
unfolding validate_parameter
option_seven = refl

option_texts : validate_parameter codec several texts ≡ accepted
unfolding validate_parameter
option_texts = refl

set_parameter-IsSent_example :
    IsSent codec seven
      ((validate codec seven ≡ accepted) × IsWritable codec seven (selected ∷ bounded ∷ []))
      (set_parameter codec (some (selected ∷ bounded ∷ [])) (λ p. true) seven).1
set_parameter-IsSent_example =
    set_parameter-IsSent codec seven (selected ∷ bounded ∷ []) (λ p. true)

new_parameter-IsValid_example :
    let V = IsValid codec "1" (pos 7) "x" true [] ("" ∷ "" ∷ []) in
    (V (new_int_parameter codec "1" (pos 7))
      × (int_value codec (new_int_parameter codec "1" (pos 7)) ≡ some (pos 7)))
    × (V (new_string_parameter codec "1" "x")
        × (string_value codec (new_string_parameter codec "1" "x") ≡ some "x"))
    × (V (new_bool_parameter codec "1" true)
        × (bool_value codec (new_bool_parameter codec "1" true) ≡ some true))
    × (V (new_int_array_parameter codec "1" [])
        × (int_array_value codec (new_int_array_parameter codec "1" []) ≡ some []))
    × (V (new_string_array_parameter codec "1" ("" ∷ "" ∷ []))
        × (string_array_value codec (new_string_array_parameter codec "1" ("" ∷ "" ∷ []))
            ≡ some ("" ∷ "" ∷ [])))
new_parameter-IsValid_example =
    new_parameter-IsValid codec "1" (pos 7) "x" true [] ("" ∷ "" ∷ []) refl
      (refl, refl, refl, refl, refl)

abbrev all_equal : ParameterReading ℕ → ParameterReading ℕ → Bool
all_equal a b = true

abbrev taken : Call
taken = record { asked = 5; noted = 5; is_taken = true }

abbrev speed : Parameter
speed = record { id = "1"; value_type = "int"; value = "7" }

-- the same report was sent before, and every value counts as unchanged
send_parameter_report-again_example :
    (send_parameter_report all_equal taken false
      (some speed)
      (report_runs all_equal (one taken false (some speed) ∷ []) new_parameter_service)).1
    ≡ sent (record { event = evt_param_report; payload = parameter speed; properties = [] })
send_parameter_report-again_example =
    send_parameter_report-again all_equal (one taken false (some speed) ∷ []) taken speed refl
