-- ===== src/Device/Chargepoint/Commands.antt =====
-- adapter/service/chargepoint: which commands reach the controller of a charger.
use cliffhanger.Prelude.{
  String, ◌≡◌, refl, ◌⊎◌, inl, inr, Bool, true, false, not, ◌&&◌, Option, none, some, arith, str_eq,
  if◌then◌else◌, Bool-cases, Option-cases, nat_eq, string_eq, contains,
}
use cliffhanger.Prelude.Int.{ℤ, pos, ◌≤ℤ◌, ltb_ℤ, int_eq}
use mathlib.Core.Path.{subst}
use cliffhanger.Device.Chargepoint.{
  Texts, Command, start_charging, stop_charging, set_cable_lock, set_offered_current,
  set_max_current, set_phase_mode, Chargepoint, Setting, refused, called, is_present, int_or_zero,
  has_any, validate_current, validate_phase_mode, start_charging_by, set_cable_lock_by,
  set_offered_current_by, set_max_current_by, set_phase_mode_by, normalize_charging_mode,
  supports_adjusting_max_current, supports_adjusting_offered_current, is_phase_mode_aware,
  supports_adjusting_phase_modes, is_cable_lock_aware, supports_adjusting_cable_lock,
}

-- the current is one that the specification allows
abbrev pub IsAllowedCurrent : Option ℤ → ℤ → Type 0
IsAllowedCurrent none n = ⊥
IsAllowedCurrent (some m) n = (pos 6 ≤ℤ n) × (n ≤ℤ m)

-- the call of a setter
abbrev pub issued : Setting → Option Command
issued refused = none
issued (called c done) = some c

and_both : (a b : Bool) → (a && b) ≡ true → (a ≡ true) × (b ≡ true)
and_both true b h = (refl, h)
and_both false b h = absurd cc

-- what a setter with two guards calls
guarded :
    (a b done : Bool) (x c : Command)
    → issued (if not a then refused else if not b then refused else called x done) ≡ some c
    → (a ≡ true) × (b ≡ true) × (x ≡ c)
guarded true true done x c h = (refl, refl, cc)
guarded true false done x c h = absurd cc
guarded false b done x c h = absurd cc

module _ {F : Type 0} where
  -- The controller can be given the command: it implements it, and the specification allows it.
  abbrev pub IsSafe : Chargepoint F → Command → Type 0
  IsSafe s (start_charging m) = (m ≡ "") ⊎ (contains s.specification.sup_charging_modes m ≡ true)
  IsSafe s stop_charging = Unit
  IsSafe s (set_cable_lock b) =
      (s.capabilities.knows_cable_lock ≡ true) × (s.capabilities.adjusts_cable_lock ≡ true)
  IsSafe s (set_offered_current n) =
      IsAllowedCurrent s.specification.sup_max_current n
      × (s.capabilities.adjusts_offered_current ≡ true)
  IsSafe s (set_max_current n) =
      IsAllowedCurrent s.specification.sup_max_current n
      × (s.capabilities.adjusts_max_current ≡ true)
  IsSafe s (set_phase_mode m) =
      (contains s.specification.sup_phase_modes m ≡ true)
      × (s.capabilities.knows_phase_mode ≡ true)
      × (s.capabilities.adjusts_phase_mode ≡ true)

  in_range :
      (n : ℤ) (s : Chargepoint F)
      → is_present s.specification.sup_max_current ≡ true
      → validate_current n s ≡ true
      → IsAllowedCurrent s.specification.sup_max_current n
  unfolding validate_current
  in_range n s p v = ranged s.specification.sup_max_current p v
    where
      ranged :
          (o : Option ℤ)
          → is_present o ≡ true
          → (if ltb_ℤ n (pos 6) then false else not (ltb_ℤ (int_or_zero o) n)) ≡ true
          → IsAllowedCurrent o n
      ranged none p v = cc
      ranged (some m) p v = ground arith

  pub max_current-IsSafe :
      (obeys : Command → Bool) (n : ℤ) (s : Chargepoint F) (c : Command)
      → issued (set_max_current_by obeys n s) ≡ some c
      → IsSafe s c
  unfolding set_max_current_by supports_adjusting_max_current
  max_current-IsSafe obeys n s c h =
      let (a, b, e) =
        guarded (supports_adjusting_max_current s) (validate_current n s) _ (set_max_current n) c
          h in
      let (present, able) = and_both (is_present s.specification.sup_max_current) _ a in
      subst (IsSafe s) e (in_range n s present b, able)

  pub offered_current-IsSafe :
      (obeys : Command → Bool) (n : ℤ) (s : Chargepoint F) (c : Command)
      → issued (set_offered_current_by obeys n s) ≡ some c
      → IsSafe s c
  unfolding set_offered_current_by supports_adjusting_offered_current
  offered_current-IsSafe obeys n s c h =
      let (a, b, e) =
        guarded (supports_adjusting_offered_current s) (validate_current n s) _
          (set_offered_current n) c h in
      let (present, able) = and_both (is_present s.specification.sup_max_current) _ a in
      subst (IsSafe s) e (in_range n s present b, able)

  pub phase_mode-IsSafe :
      (obeys : Command → Bool) (m : String) (s : Chargepoint F) (c : Command)
      → issued (set_phase_mode_by obeys m s) ≡ some c
      → IsSafe s c
  unfolding set_phase_mode_by supports_adjusting_phase_modes is_phase_mode_aware validate_phase_mode
  phase_mode-IsSafe obeys m s c h =
      let (a, b, e) =
        guarded (supports_adjusting_phase_modes s) (validate_phase_mode m s) _ (set_phase_mode m) c
          h in
      let (aware, able) = and_both (is_phase_mode_aware s) _ a in
      let (listed, known) = and_both (has_any s.specification.sup_phase_modes) _ aware in
      subst (IsSafe s) e (b, known, able)

  pub cable_lock-IsSafe :
      (obeys : Command → Bool) (lock : Bool) (s : Chargepoint F) (c : Command)
      → issued (set_cable_lock_by obeys lock s) ≡ some c
      → IsSafe s c
  unfolding set_cable_lock_by supports_adjusting_cable_lock is_cable_lock_aware
  cable_lock-IsSafe obeys lock s c h = elim (Bool-cases (supports_adjusting_cable_lock s)) [
    | inl a ↦
        (let e : set_cable_lock lock ≡ c = cc (rw a at h) in
          subst (IsSafe s) e (and_both s.capabilities.knows_cable_lock _ a))
    | inr a ↦ absurd (cc (rw a at h))
  ]

module _ (texts : Texts) where
  normalized :
      (mode m : String) (s : Chargepoint texts.Float)
      → normalize_charging_mode texts mode s ≡ some m
      → (m ≡ "") ⊎ (contains s.specification.sup_charging_modes m ≡ true)
  unfolding normalize_charging_mode
  normalized mode m s h = elim (Bool-cases (str_eq mode "")) [
    | inl a ↦ inl (cc (rw a at h))
    | inr a ↦ elim (Bool-cases (has_any s.specification.sup_charging_modes)) [
      | inr b ↦ inl (cc (rw (a, b) at h))
      | inl b ↦
          elim (Bool-cases (contains s.specification.sup_charging_modes (texts.to_lower mode))) [
            | inl k ↦ inr (let e : texts.to_lower mode ≡ m = cc (rw (a, b, k) at h) in rw e at k)
            | inr k ↦ absurd (cc (rw (a, b, k) at h))
          ]
    ]
  ]

  pub charging-IsSafe :
      (obeys : Command → Bool) (mode : String) (s : Chargepoint texts.Float) (c : Command)
      → issued (start_charging_by texts obeys mode s) ≡ some c
      → IsSafe s c
  unfolding start_charging_by
  charging-IsSafe obeys mode s c h = elim (Option-cases (normalize_charging_mode texts mode s)) [
    | inl q ↦ absurd (cc (rw q at h))
    | inr (m, q) ↦
        (let e : start_charging m ≡ c = cc (rw q at h) in
          subst (IsSafe s) e (normalized mode m s q))
  ]
