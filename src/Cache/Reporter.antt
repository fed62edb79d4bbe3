-- ===== src/Cache/Reporter.antt =====
-- adapter/cache/reporter.go. `any` is a type parameter, and `reflect.DeepEqual`, of Go's library, an
-- argument; `time.Now()` is an argument too. The methods run under one lock, so each is one step.
pub mod Laws
mod Examples
use cliffhanger.Prelude.{String, Bool, true, not, Option, none, some, [], if◌then◌else◌}
use cliffhanger.Prelude.Int.{ltb_ℤ, Time, Duration, since}
use cliffhanger.Prelude.Dict.{Dict, lookup, insert}

-- ReportingStrategy: the strategies that the package offers. `custom` is any other function; it is
-- given what `time.Now()` reads while it runs.
pub data Strategy : Type 0 where
  always on_change_only : Strategy
  at_least_every : Duration → Strategy
  custom : (Time → Bool → Time → Bool) → Strategy

-- ReportRequired of a strategy
unfoldable pub strategy_requires : Strategy → Time → Bool → Time → Bool
strategy_requires always now has_changed last_reported = true
strategy_requires on_change_only now has_changed last_reported = has_changed
strategy_requires (at_least_every interval) now has_changed last_reported =
    if has_changed then true else ltb_ℤ interval (since now last_reported)
strategy_requires (custom f) now has_changed last_reported = f now has_changed last_reported

module _ {ℓ} where
  pub record Value (A : Type ℓ) : Type ℓ where
    pub reported : Time
    pub val : A

  -- reportingCache
  abbrev pub ReportingCache : Type ℓ → Type ℓ
  ReportingCache A = Dict (Dict (Value A))

module _ {ℓ} {A : Type ℓ} where
  unfoldable pub new_reporting_cache : ReportingCache A
  new_reporting_cache = []

  -- `c.values[key]`, where a missing key gives the nil map
  abbrev pub submap : Option (Dict (Value A)) → Dict (Value A)
  submap none = []
  submap (some m) = m

  -- `c.values[key][subKey]`, where `none` is the nil pointer
  unfoldable pub find : ReportingCache A → String → String → Option (Value A)
  find c key sub_key = lookup sub_key (submap (lookup key c))

  -- A second report of a pair of keys overwrites both fields of its entry.
  unfoldable pub reported : Time → String → String → A → ReportingCache A → ReportingCache A
  reported now key sub_key v c =
      insert key (insert sub_key (record { reported = now; val = v }) (submap (lookup key c))) c

-- What asks for changes takes `reflect.DeepEqual`.
module _ {ℓ} {A : Type ℓ} (deep_equal : A → A → Bool) where
  abbrev pub value_has_changed : Value A → A → Bool
  value_has_changed v x = not (deep_equal v.val x)

  unfoldable pub has_changed : ReportingCache A → String → String → A → Bool
  has_changed c key sub_key x = elim (find c key sub_key) [
    | none ↦ true
    | some v ↦ value_has_changed v x
  ]

  unfoldable pub report_required : Time → ReportingCache A → Strategy → String → String → A → Bool
  report_required now c strategy key sub_key x = elim (find c key sub_key) [
    | none ↦ true
    | some v ↦ strategy_requires strategy now (value_has_changed v x) v.reported
  ]
