-- ===== src/Parameters/Trips.antt =====
-- What the controller is told to set, and the parameters that are made from values
-- (adapter/service/parameters).
use cliffhanger.Prelude.{
  suc, String, ◌≡◌, refl, ◌⊎◌, inl, inr, Bool, false, some, List, [], ◌∷◌, arith, str_eq, eq_iff,
  Bool-cases, Option-cases, nat_eq, string_eq, contains,
}
use cliffhanger.Prelude.Int.{ℤ, int_eq}
use cliffhanger.Parameters.{
  Codec, Parameter, ParameterSpecification, accepted, is_value_type_allowed,
  value_matches_value_type, int_value, string_value, bool_value, int_array_value,
  string_array_value, validate, validate_parameter, new_int_parameter, new_string_parameter,
  new_bool_parameter, new_int_array_parameter, new_string_array_parameter,
}
use cliffhanger.Parameters.Service.{find_specification, set_checked, set_specified, set_parameter}
use cliffhanger.Parameters.Allowed.{Member}

module _ (codec : Codec) (p : Parameter) where
  -- there is a specification of the parameter that can be written and accepts it
  abbrev pub IsWritable : List (ParameterSpecification codec.Float) → Type 0
  IsWritable ss =
      (s : ParameterSpecification codec.Float) × Member s ss
      × (s.spec_id ≡ p.id)
      × (s.read_only ≡ false)
      × (validate_parameter codec s p ≡ accepted)

  -- nothing is told to the controller, or once the parameter, for which `A` holds
  abbrev pub IsSent : Type 0 → List Parameter → Type 0
  IsSent A sent = (sent ≡ []) ⊎ (sent ≡ p ∷ []) × A

  found_specification :
      (ss : List (ParameterSpecification codec.Float)) (s : ParameterSpecification codec.Float)
      → find_specification codec p.id ss ≡ some s
      → Member s ss × (s.spec_id ≡ p.id)
  unfolding find_specification
  found_specification [] s h = ground arith
  found_specification (x ∷ ss) s h = elim (Bool-cases (str_eq x.spec_id p.id)) [
    | inl q ↦ (let e = rw q at h in ((0, e), ground (arith, e, eq_iff x.spec_id p.id)))
    | inr q ↦ (let ((i, m), e) = found_specification ss s (rw q at h) in ((suc i, m), e))
  ]

  set_checked-IsSent :
      (s : ParameterSpecification codec.Float) (succeeds : Parameter → Bool)
      → IsSent
          ((s.read_only ≡ false) × (validate_parameter codec s p ≡ accepted))
          (set_checked codec s succeeds p).1
  unfolding set_checked
  set_checked-IsSent s succeeds = ground arith

  set_specified-IsSent :
      (ss : List (ParameterSpecification codec.Float)) (succeeds : Parameter → Bool)
      → IsSent (IsWritable ss) (set_specified codec (some ss) succeeds p).1
  unfolding set_specified
  set_specified-IsSent ss succeeds = elim (Option-cases (find_specification codec p.id ss)) [
    | inl q ↦ rw (q, set_specified) (inl refl)
    | inr (s, q) ↦
        (let (m, i) = found_specification ss s q in
          rw (q, set_specified)
            (elim (set_checked-IsSent s succeeds) [
              | inl e ↦ inl e
              | inr (e, (r, v)) ↦ inr (e, (s, m, i, r, v))
            ]))
  ]

  -- A call of SetParameter tells the controller to set nothing, or to set the given parameter once; and
  -- then the parameter is valid, and a specification of the controller with its identifier is writable and
  -- accepts it.
  pub set_parameter-IsSent :
      (ss : List (ParameterSpecification codec.Float)) (succeeds : Parameter → Bool)
      → IsSent
          ((validate codec p ≡ accepted) × IsWritable ss)
          (set_parameter codec (some ss) succeeds p).1
  unfolding set_parameter
  set_parameter-IsSent ss succeeds = ground (arith, set_specified-IsSent ss succeeds)

module _ (codec : Codec) (i : String) (v : ℤ) (t : String) (b : Bool) (vs : List ℤ)
    (ts : List String) where
  -- JSON decodes what it encodes of these values.
  abbrev pub IsCodec : Type 0
  IsCodec =
      (codec.decode_int (codec.encode_int v) ≡ some v)
      × (codec.decode_string (codec.encode_string t) ≡ some t)
      × (codec.decode_bool (codec.encode_bool b) ≡ some b)
      × (codec.decode_int_array (codec.encode_int_array vs) ≡ some vs)
      × (codec.decode_string_array (codec.encode_string_array ts) ≡ some ts)

  abbrev pub IsValid : Parameter → Type 0
  IsValid p = validate codec p ≡ accepted

  -- A parameter that is made from a value of one of the five types, with an identifier that is not empty,
  -- is valid and its value is read back, when JSON decodes what it encodes of the value.
  pub new_parameter-IsValid :
      str_eq i "" ≡ false
      → IsCodec
      → (IsValid (new_int_parameter codec i v)
          × (int_value codec (new_int_parameter codec i v) ≡ some v))
        × (IsValid (new_string_parameter codec i t)
            × (string_value codec (new_string_parameter codec i t) ≡ some t))
        × (IsValid (new_bool_parameter codec i b)
            × (bool_value codec (new_bool_parameter codec i b) ≡ some b))
        × (IsValid (new_int_array_parameter codec i vs)
            × (int_array_value codec (new_int_array_parameter codec i vs) ≡ some vs))
        × (IsValid (new_string_array_parameter codec i ts)
            × (string_array_value codec (new_string_array_parameter codec i ts) ≡ some ts))
  unfolding validate is_value_type_allowed contains value_matches_value_type int_value string_value
      bool_value int_array_value string_array_value new_int_parameter new_string_parameter
      new_bool_parameter new_int_array_parameter new_string_array_parameter
  new_parameter-IsValid named (q1, q2, q3, q4, q5) = (
    rw (named, q1) (refl, refl),
    rw (named, q2) (refl, refl),
    rw (named, q3) (refl, refl),
    rw (named, q4) (refl, refl),
    rw (named, q5) (refl, refl),
  )
