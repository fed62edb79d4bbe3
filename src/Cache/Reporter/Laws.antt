-- ===== src/Cache/Reporter/Laws.antt =====
-- What the reporting cache of adapter/cache/reporter.go remembers, and what it then asks for.
use cliffhanger.Prelude.{
  String, ◌≡◌, refl, ap, ◌∙◌, ◌↔◌, inl, inr, Bool, true, false, not, ◌&&◌, some, arith, str_eq,
  eq_iff, eq_refl, if◌then◌else◌, Bool-cases, nat_eq, string_eq,
}
use cliffhanger.Prelude.Int.{sub_ℕ, ◌<ℤ◌, int_eq, Time, Duration}
use cliffhanger.Prelude.Dict.{lookup, lookup-insert}
use cliffhanger.Cache.Reporter.{
  Strategy, always, on_change_only, at_least_every, strategy_requires, ReportingCache,
  new_reporting_cache, submap, find, reported, has_changed, report_required,
}

module _ {ℓ} {A : Type ℓ} where
  -- Reporting a value for a pair of keys stores it with the instant there, and changes no other pair.
  pub find-reported :
      (now : Time) (key sub_key k s : String) (v : A) (c : ReportingCache A)
      → find (reported now key sub_key v c) k s ≡ (
          if str_eq key k && str_eq sub_key s
          then some (record { reported = now; val = v })
          else find c k s)
  unfolding find reported
  find-reported now key sub_key k s v c = rw lookup-insert (elim (Bool-cases (str_eq key k)) [
    | inl e ↦
        rw (e, lookup-insert)
          (ap
            (λ t.
              if str_eq sub_key s
              then some (record { reported = now; val = v })
              else lookup s (submap (lookup t c)))
            ((eq_iff key k).0 e))
    | inr e ↦ rw e
  ])

module _ {ℓ} {A : Type ℓ} (deep_equal : A → A → Bool) where
  -- Nothing reported for a pair of keys: a report is required whatever the strategy.
  pub report_required-new :
      (now : Time) (strategy : Strategy) (k s : String) (x : A)
      → report_required deep_equal now new_reporting_cache strategy k s x ≡ true
  unfolding report_required find new_reporting_cache lookup
  report_required-new now strategy k s x = refl

  -- What is asked for after a report of `v` at the instant `t`: for the same pair of keys the strategy
  -- decides, on whether the value differs from `v` and on `t`, and for any other pair nothing changes.
  pub report_required-reported :
      (t now : Time) (strategy : Strategy) (key sub_key k s : String) (v x : A)
      (c : ReportingCache A)
      → report_required deep_equal now (reported t key sub_key v c) strategy k s x ≡ (
          if str_eq key k && str_eq sub_key s
          then strategy_requires strategy now (not (deep_equal v x)) t
          else report_required deep_equal now c strategy k s x)
  unfolding report_required
  report_required-reported t now strategy key sub_key k s v x c =
      rw (find-reported t key sub_key k s v c, report_required)
        (elim (Bool-cases (str_eq key k && str_eq sub_key s)) [ inl e ↦ rw e | inr e ↦ rw e ])

  -- A value that was reported at `t` and has not changed since, by a comparison under which it equals
  -- itself, is asked for again by `ReportAtLeastEvery` exactly when more than the interval has passed,
  -- by `ReportOnChangeOnly` never, and by `ReportAlways` always.
  pub unchanged_report :
      (t now : Time) (interval : Duration) (k s : String) (v : A) (c : ReportingCache A)
      → deep_equal v v ≡ true
      → ((report_required deep_equal now (reported t k s v c) (at_least_every interval) k s v
            ≡ true)
          ↔ (interval <ℤ sub_ℕ now t))
        × (report_required deep_equal now (reported t k s v c) on_change_only k s v ≡ false)
        × (report_required deep_equal now (reported t k s v c) always k s v ≡ true)
  unchanged_report t now interval k s v c same = (
    rw (asks (at_least_every interval)) (unfold strategy_requires in rw same (ground arith)),
    asks on_change_only ∙ (unfold strategy_requires in ap not same),
    asks always ∙ (unfold strategy_requires in refl),
  )
    where
      asks :
          (strategy : Strategy)
          → report_required deep_equal now (reported t k s v c) strategy k s v
            ≡ strategy_requires strategy now (not (deep_equal v v)) t
      asks strategy =
          rw (report_required-reported t now strategy k s k s v v c, eq_refl k, eq_refl s)

  -- `HasChanged` compares with the last report of the same pair of keys, and is true before the first.
  pub has_changed-reported :
      (t : Time) (key sub_key k s : String) (v x : A) (c : ReportingCache A)
      → has_changed deep_equal (reported t key sub_key v c) k s x ≡ (
          if str_eq key k && str_eq sub_key s
          then not (deep_equal v x)
          else has_changed deep_equal c k s x)
  unfolding has_changed
  has_changed-reported t key sub_key k s v x c =
      rw (find-reported t key sub_key k s v c, has_changed)
        (elim (Bool-cases (str_eq key k && str_eq sub_key s)) [ inl e ↦ rw e | inr e ↦ rw e ])
