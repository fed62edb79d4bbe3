-- ===== src/Parameters/Service.antt =====
-- adapter/service/parameters/service.go: SetParameter. What the controller answers is an argument.
use cliffhanger.Prelude.{
  String, Bool, Option, none, some, List, [], ◌∷◌, str_eq, if◌then◌else◌, nat_eq, string_eq,
}
use cliffhanger.Prelude.Int.{int_eq}
use cliffhanger.Parameters.{
  Codec, Parameter, ParameterSpecification, Verdict, accepted, validate, validate_parameter,
}

-- how a call of `SetParameter` ends
pub data Answer : Type 0 where
  invalid : Verdict → Answer
  no_specifications unknown_parameter is_read_only controller_failed done : Answer

module _ (codec : Codec) where
  -- the loop of `getParameterSpecification`
  unfoldable pub find_specification :
      String
      → List (ParameterSpecification codec.Float)
      → Option (ParameterSpecification codec.Float)
  find_specification i [] = none
  find_specification i (s ∷ ss) = if str_eq s.spec_id i then some s else find_specification i ss

  -- the call of the controller
  abbrev pub send_to_controller : (Parameter → Bool) → Parameter → Answer × List Parameter
  send_to_controller succeeds p = (if succeeds p then done else controller_failed, p ∷ [])

  -- the part of `SetParameter` that has a specification
  unfoldable pub set_checked :
      ParameterSpecification codec.Float → (Parameter → Bool) → Parameter → Answer × List Parameter
  set_checked s succeeds p =
      if s.read_only then (is_read_only, []) else elim (validate_parameter codec s p) [
        | accepted ↦ send_to_controller succeeds p
        | other ↦ (invalid other, [])
      ]

  unfoldable pub set_specified :
      Option (List (ParameterSpecification codec.Float))
      → (Parameter → Bool)
      → Parameter
      → Answer × List Parameter
  unfolding find_specification set_checked
  set_specified none succeeds p = (no_specifications, [])
  set_specified (some ss) succeeds p = elim (find_specification p.id ss) [
    | none ↦ (unknown_parameter, [])
    | some s ↦ set_checked s succeeds p
  ]

  -- `SetParameter`: how it ends, and what the controller is told to set
  unfoldable pub set_parameter :
      Option (List (ParameterSpecification codec.Float))
      → (Parameter → Bool)
      → Parameter
      → Answer × List Parameter
  unfolding set_specified
  set_parameter specs succeeds p = elim (validate codec p) [
    | accepted ↦ set_specified specs succeeds p
    | other ↦ (invalid other, [])
  ]
