-- ===== src/Parameters.antt =====
-- adapter/service/parameters/model.go and the method SetParameter of service.go: parameters of devices,
-- and their validation against a specification. The decoding of JSON and the conversion of floats to
-- integers are parameters of the model.
pub mod Service
mod Reports
mod Allowed
mod Trips
mod Examples
use cliffhanger.Prelude.{
  ℕ, ◌-◌, ◌%◌, String, Bool, true, false, not, Option, none, some, List, [], ◌∷◌, str_eq, ltb,
  if◌then◌else◌, Eq, nat_eq, string_eq, contains,
}
use cliffhanger.Prelude.Int.{ℤ, pos, negsuc, ltb_ℤ, int_eq}

abbrev pub value_type_int : String
value_type_int = "int"

abbrev pub value_type_string : String
value_type_string = "string"

abbrev pub value_type_bool : String
value_type_bool = "bool"

abbrev pub value_type_int_array : String
value_type_int_array = "int_array"

abbrev pub value_type_string_array : String
value_type_string_array = "string_array"

abbrev pub widget_type_input : String
widget_type_input = "input"

abbrev pub widget_type_select : String
widget_type_select = "select"

abbrev pub widget_type_multi_select : String
widget_type_multi_select = "multiselect"

-- `AllowedValueTypes`
abbrev pub allowed_value_types : List String
allowed_value_types =
    value_type_int ∷ value_type_string ∷ value_type_bool ∷ value_type_int_array
    ∷ value_type_string_array ∷ []

-- `IsValueTypeAllowed`
unfoldable pub is_value_type_allowed : String → Bool
unfolding contains
is_value_type_allowed t = contains allowed_value_types t

-- encoding/json, for the types of values, and a conversion `int(v)` of a float
pub record Codec : Type 1 where
  pub Float : Type 0
  pub truncate : Float → ℤ
  pub decode_int : String → Option ℤ
  pub decode_string : String → Option String
  pub decode_bool : String → Option Bool
  pub decode_int_array : String → Option (List ℤ)
  pub decode_string_array : String → Option (List String)
  pub encode_int : ℤ → String
  pub encode_string : String → String
  pub encode_bool : Bool → String
  pub encode_int_array : List ℤ → String
  pub encode_string_array : List String → String

-- a value of an option: signed and unsigned integers of all widths, floats, texts and the rest
pub data OptionValue (Float : Type 0) : Type 0 where
  signed : ℤ → OptionValue Float
  unsigned : ℕ → OptionValue Float
  floating : Float → OptionValue Float
  text : String → OptionValue Float
  other_value : OptionValue Float

pub record Parameter : Type 0 where
  pub id : String
  pub value_type : String
  pub value : String

pub record ParameterSpecification (Float : Type 0) : Type 0 where
  pub spec_id : String
  pub spec_value_type : String
  pub widget_type : String
  pub options : List (OptionValue Float)
  pub min : Option ℤ
  pub max : Option ℤ
  pub read_only : Bool

-- the errors of validation
pub data Verdict : Type 0 where
  accepted empty_id type_not_allowed type_mismatch undecoded too_low too_high not_allowed
        widget_unsupported :
      Verdict

-- whether there is no error
abbrev pub is_some {ℓ} : {A : Type ℓ} → Option A → Bool
is_some none = false
is_some (some a) = true

-- the conversion of an unsigned integer to int, of 64 bits
abbrev pub to_int : ℕ → ℤ
to_int n =
    let w = n % 18446744073709551616 in
    if ltb w 9223372036854775808 then pos w else negsuc (18446744073709551615 - w)

-- `includes`
module _ {ℓ} {A : Type ℓ} ⦃e : Eq A⦄ where
  unfoldable pub includes : List A → List A → Bool
  unfolding contains
  includes s [] = true
  includes s (v ∷ vs) = if contains s v then includes s vs else false

-- whether `v < *s.Min`, when there is a minimum
abbrev pub is_below : ℤ → Option ℤ → Bool
is_below v none = false
is_below v (some m) = ltb_ℤ v m

-- whether `v > *s.Max`, when there is a maximum
abbrev pub is_above : ℤ → Option ℤ → Bool
is_above v none = false
is_above v (some m) = ltb_ℤ m v

module _ (codec : Codec) where
  -- `IntValues`
  unfoldable pub int_values : List (OptionValue codec.Float) → List ℤ
  int_values [] = []
  int_values (signed v ∷ os) = v ∷ int_values os
  int_values (unsigned v ∷ os) = to_int v ∷ int_values os
  int_values (floating v ∷ os) = codec.truncate v ∷ int_values os
  int_values (text v ∷ os) = int_values os
  int_values (other_value ∷ os) = int_values os

  -- `StringValues`
  unfoldable pub string_values : List (OptionValue codec.Float) → List String
  string_values [] = []
  string_values (text v ∷ os) = v ∷ string_values os
  string_values (_ ∷ os) = string_values os

  -- `IntValue` and the like; none is an error
  unfoldable pub int_value : Parameter → Option ℤ
  int_value p = if str_eq p.value_type value_type_int then codec.decode_int p.value else none

  unfoldable pub string_value : Parameter → Option String
  string_value p =
      if str_eq p.value_type value_type_string then codec.decode_string p.value else none

  unfoldable pub bool_value : Parameter → Option Bool
  bool_value p = if str_eq p.value_type value_type_bool then codec.decode_bool p.value else none

  unfoldable pub int_array_value : Parameter → Option (List ℤ)
  int_array_value p =
      if str_eq p.value_type value_type_int_array then codec.decode_int_array p.value else none

  unfoldable pub string_array_value : Parameter → Option (List String)
  string_array_value p =
      if str_eq p.value_type value_type_string_array
      then codec.decode_string_array p.value
      else none

  -- `valueMatchesValueType`
  unfoldable pub value_matches_value_type : Parameter → Bool
  unfolding int_value string_value bool_value int_array_value string_array_value
  value_matches_value_type p =
      if str_eq p.value_type value_type_int
      then is_some (int_value p)
      else if str_eq p.value_type value_type_string
      then is_some (string_value p)
      else if str_eq p.value_type value_type_bool
      then is_some (bool_value p)
      else if str_eq p.value_type value_type_int_array
      then is_some (int_array_value p)
      else if str_eq p.value_type value_type_string_array
      then is_some (string_array_value p)
      else true

  -- `Validate`
  unfoldable pub validate : Parameter → Verdict
  unfolding is_value_type_allowed value_matches_value_type
  validate p =
      if str_eq p.id ""
      then empty_id
      else if not (is_value_type_allowed p.value_type)
      then type_not_allowed
      else if not (value_matches_value_type p)
      then undecoded
      else accepted

  abbrev pub check_bounds : ParameterSpecification codec.Float → Option ℤ → Verdict
  check_bounds s none = undecoded
  check_bounds s (some v) =
      if is_below v s.min then too_low else if is_above v s.max then too_high else accepted

  unfoldable pub validate_input : ParameterSpecification codec.Float → Parameter → Verdict
  unfolding int_value
  validate_input s p =
      if str_eq s.spec_value_type value_type_int then check_bounds s (int_value p) else accepted

  unfoldable pub validate_select : ParameterSpecification codec.Float → Parameter → Verdict
  unfolding int_value string_value int_values string_values contains
  validate_select s p =
      if str_eq s.spec_value_type value_type_int
      then elim (int_value p) [
        | none ↦ undecoded
        | some v ↦ (if contains (int_values s.options) v then accepted else not_allowed)
      ]
      else if str_eq s.spec_value_type value_type_string
      then elim (string_value p) [
        | none ↦ undecoded
        | some v ↦ (if contains (string_values s.options) v then accepted else not_allowed)
      ]
      else accepted

  unfoldable pub validate_multi_select : ParameterSpecification codec.Float → Parameter → Verdict
  unfolding int_array_value string_array_value int_values string_values includes
  validate_multi_select s p =
      if str_eq s.spec_value_type value_type_int_array
      then elim (int_array_value p) [
        | none ↦ undecoded
        | some v ↦ (if includes (int_values s.options) v then accepted else not_allowed)
      ]
      else if str_eq s.spec_value_type value_type_string_array
      then elim (string_array_value p) [
        | none ↦ undecoded
        | some v ↦ (if includes (string_values s.options) v then accepted else not_allowed)
      ]
      else accepted

  -- the switch of `ValidateParameter`
  unfoldable pub validate_widget : ParameterSpecification codec.Float → Parameter → Verdict
  unfolding validate_input validate_select validate_multi_select
  validate_widget s p =
      if str_eq s.widget_type widget_type_input
      then validate_input s p
      else if str_eq s.widget_type widget_type_select
      then validate_select s p
      else if str_eq s.widget_type widget_type_multi_select
      then validate_multi_select s p
      else widget_unsupported

  -- `ValidateParameter`
  unfoldable pub validate_parameter : ParameterSpecification codec.Float → Parameter → Verdict
  unfolding validate_widget
  validate_parameter s p =
      if not (str_eq s.spec_value_type p.value_type) then type_mismatch else validate_widget s p

  -- `NewIntParameter` and the like
  unfoldable pub new_int_parameter : String → ℤ → Parameter
  new_int_parameter i v = record { id = i; value_type = value_type_int; value = codec.encode_int v }

  unfoldable pub new_string_parameter : String → String → Parameter
  new_string_parameter i v = record {
    id = i;
    value_type = value_type_string;
    value = codec.encode_string v;
  }

  unfoldable pub new_bool_parameter : String → Bool → Parameter
  new_bool_parameter i v = record {
    id = i;
    value_type = value_type_bool;
    value = codec.encode_bool v;
  }

  unfoldable pub new_int_array_parameter : String → List ℤ → Parameter
  new_int_array_parameter i v = record {
    id = i;
    value_type = value_type_int_array;
    value = codec.encode_int_array v;
  }

  unfoldable pub new_string_array_parameter : String → List String → Parameter
  new_string_array_parameter i v = record {
    id = i;
    value_type = value_type_string_array;
    value = codec.encode_string_array v;
  }
