-- ===== src/Parameters/Allowed.antt =====
-- What the validation of a parameter accepts (adapter/service/parameters).
use cliffhanger.Prelude.{
  ℕ, suc, String, ◌≡◌, refl, ap, ◌∙◌, inl, inr, true, Option, none, some, List, [], ◌∷◌, arith,
  eq_iff, if◌then◌else◌, Bool-cases, Eq, nat_eq, string_eq, get_elem?, All, contains,
}
use cliffhanger.Prelude.Int.{ℤ, ◌≤ℤ◌, int_eq}
use mathlib.Core.Bool.{false≢true}
use cliffhanger.Parameters.{
  value_type_int, value_type_string_array, widget_type_input, widget_type_select,
  widget_type_multi_select, Codec, Parameter, ParameterSpecification, accepted, undecoded,
  not_allowed, validate_widget, includes, int_values, string_values, int_value, string_array_value,
  check_bounds, validate_input, validate_select, validate_multi_select, validate_parameter,
}

-- a value stands at some place of a list
abbrev pub Member {ℓ} : {A : Type ℓ} → A → List A → Type ℓ
Member a xs = (i : ℕ) × (get_elem? xs i ≡ some a)

module _ {ℓ} {A : Type ℓ} ⦃e : Eq A⦄ where
  contains-Member : (xs : List A) (a : A) → contains xs a ≡ true → Member a xs
  unfolding contains
  contains-Member [] a h = absurd (false≢true h)
  contains-Member (x ∷ xs) a h = elim (Bool-cases (e.same x a)) [
    | inl q ↦ (0, ap some ((e.same_iff x a).0 q))
    | inr q ↦ (let (i, m) = contains-Member xs a (rw q at h) in (suc i, m))
  ]

  includes-Member : (xs vs : List A) → includes xs vs ≡ true → All (λ v. Member v xs) vs
  unfolding includes
  includes-Member xs [] h = tt
  includes-Member xs (v ∷ vs) h = elim (Bool-cases (contains xs v)) [
    | inl q ↦ (contains-Member xs v q, includes-Member xs vs (rw q at h))
    | inr q ↦ absurd (false≢true (rw q at h))
  ]

module _ (codec : Codec) (s : ParameterSpecification codec.Float) (p : Parameter) where
  -- the value of an input is in the bounds that there are
  pub IsInBounds : ℤ → Type 0
  IsInBounds v = ((m : ℤ) → s.min ≡ some m → m ≤ℤ v) × ((m : ℤ) → s.max ≡ some m → v ≤ℤ m)

  check_bounds-IsInBounds : (v : ℤ) → check_bounds codec s (some v) ≡ accepted → IsInBounds v
  unfolding IsInBounds
  check_bounds-IsInBounds v h = (λ m q. ground arith, λ m q. ground arith)

  same_types : validate_parameter codec s p ≡ accepted → s.spec_value_type ≡ p.value_type
  unfolding validate_parameter
  same_types h = ground (arith, eq_iff s.spec_value_type p.value_type)

  checked_widget : validate_parameter codec s p ≡ accepted → validate_widget codec s p ≡ accepted
  unfolding validate_parameter
  checked_widget h = ground arith

  decoded-IsInBounds :
      (o : Option ℤ) → check_bounds codec s o ≡ accepted → (v : ℤ) × (o ≡ some v) × IsInBounds v
  decoded-IsInBounds none h = ground arith
  decoded-IsInBounds (some v) h = (v, refl, check_bounds-IsInBounds v h)

  -- When an input of type int is accepted, its value decodes to an integer within the bounds that the
  -- specification has.
  pub validate_parameter-IsInBounds :
      p.value_type ≡ value_type_int
      → s.widget_type ≡ widget_type_input
      → validate_parameter codec s p ≡ accepted
      → (v : ℤ) × (codec.decode_int p.value ≡ some v) × IsInBounds v
  unfolding validate_widget validate_input int_value
  validate_parameter-IsInBounds t w h =
      let q = same_types h ∙ t in
      let c = checked_widget h in decoded-IsInBounds (codec.decode_int p.value) (rw (w, q, t) at c)

  decoded_option :
      (o : Option ℤ)
      → (elim o [
        | none ↦ undecoded
        | some v ↦ (if contains (int_values codec s.options) v then accepted else not_allowed)
      ])
        ≡ accepted
      → (v : ℤ) × (o ≡ some v) × Member v (int_values codec s.options)
  decoded_option none h = ground arith
  decoded_option (some v) h =
      (v, refl, contains-Member (int_values codec s.options) v (ground arith))

  -- When a selection of type int is accepted, its value decodes to an integer that is the value of one of
  -- the options.
  pub validate_parameter-Member :
      p.value_type ≡ value_type_int
      → s.widget_type ≡ widget_type_select
      → validate_parameter codec s p ≡ accepted
      → (v : ℤ) × (codec.decode_int p.value ≡ some v) × Member v (int_values codec s.options)
  unfolding validate_widget validate_select int_value
  validate_parameter-Member t w h =
      let q = same_types h ∙ t in
      let c = checked_widget h in decoded_option (codec.decode_int p.value) (rw (w, q, t) at c)

  decoded_options :
      (o : Option (List String))
      → (elim o [
        | none ↦ undecoded
        | some v ↦ (if includes (string_values codec s.options) v then accepted else not_allowed)
      ])
        ≡ accepted
      → (vs : List String) × (o ≡ some vs) × All (λ v. Member v (string_values codec s.options)) vs
  decoded_options none h = ground arith
  decoded_options (some vs) h =
      (vs, refl, includes-Member (string_values codec s.options) vs (ground arith))

  -- When a multiple selection of texts is accepted, its value decodes to a list of texts each of which is
  -- the value of one of the options.
  pub validate_parameter-All :
      p.value_type ≡ value_type_string_array
      → s.widget_type ≡ widget_type_multi_select
      → validate_parameter codec s p ≡ accepted
      → (vs : List String) × (codec.decode_string_array p.value ≡ some vs)
        × All (λ v. Member v (string_values codec s.options)) vs
  unfolding validate_widget validate_multi_select string_array_value
  validate_parameter-All t w h =
      let q = same_types h ∙ t in
      let c = checked_widget h in
      decoded_options (codec.decode_string_array p.value) (rw (w, q, t) at c)
