-- ===== src/Telemetry/Window.antt =====
-- telemetry/telemetry.go: for how long telemetry stays enabled.
use cliffhanger.Prelude.{
  ℕ, ◌+◌, ◌-◌, ◌≤◌, ◌<◌, ◌≡◌, refl, sym, ap, ◌∙◌, inl, inr, Bool, true, false, not, ◌||◌, Option,
  none, some, arith, ◌==◌, if◌then◌else◌, Bool-cases, Option-cases, nat_eq, string_eq,
}
use cliffhanger.Prelude.Int.{
  ℤ, pos, ◌+ℤ◌, ◌-ℤ◌, ◌<ℤ◌, ltb_ℤ, leb_ℤ, int_eq, eq_of_parts, int_laws, Time, Duration,
}
use mathlib.Core.Path.{subst}
use cliffhanger.Config.{SuppressedEntry, TelemetryConfig, telemetry_of, set_telemetry}
use cliffhanger.Telemetry.{
  Telemetry, config, validity_or_default, start_timer, stop_timer, write_config, enable, is_dated,
  set_validity, set_suppressed, disable, disable_if, timer_ended, resume_validity_window,
  next_validity, restart_timer, resumed, resumed_at, default_telemetry_validity,
}

-- No timer runs and telemetry is disabled, or the given timer runs: telemetry is enabled since a known
-- instant that is not in the future, and the timer ends when the validity has passed since then.
abbrev TimedBy : Time → TelemetryConfig → (ℕ → ℤ) → Option ℕ → Type 0
TimedBy now c ends none = c.enabled ≡ false
TimedBy now c ends (some i) =
    (c.enabled ≡ true)
    × (0 < c.enabled_at)
    × (c.enabled_at ≤ now)
    × (ends i ≡ pos c.enabled_at +ℤ validity_or_default c)

later_deadline : (now at : ℕ) (v : ℤ) → at ≤ now → pos now +ℤ (v -ℤ pos (now - at)) ≡ pos at +ℤ v
later_deadline now at v h = eq_of_parts _ _ (omega int_laws)

positive_validity : (c : TelemetryConfig) → pos 0 <ℤ c.validity → validity_or_default c ≡ c.validity
unfolding validity_or_default
positive_validity c h = ground arith

same_validity :
    (c d : TelemetryConfig)
    → c.validity ≡ d.validity
    → validity_or_default c ≡ validity_or_default d
unfolding validity_or_default
same_validity c d q = ap (λ w. if ltb_ℤ (pos 0) w then w else default_telemetry_validity) q

resumed_on :
    (now : Time) (c : TelemetryConfig) → 0 < now → (0 < resumed_at now c) × (resumed_at now c ≤ now)
resumed_on now c p = ground arith

module _ {V : Type 0} where
  -- The timer agrees with the configuration.
  unfoldable pub IsTimed : Time → Telemetry V → Type 0
  unfolding config telemetry_of
  IsTimed now t = TimedBy now (config t) t.timer_ends t.timer

  pub enable-IsTimed :
      (b : Bool) (now : Time) (t : Telemetry V) → 0 < now → IsTimed now (enable b now true t).0
  unfolding enable IsTimed start_timer stop_timer write_config set_telemetry
  enable-IsTimed true now t p = (refl, p, omega arith, ground arith)
  enable-IsTimed false now t p = refl

  stopped-IsTimed :
      (now : Time) (t : Telemetry V) → (config t).enabled ≡ false → IsTimed now (stop_timer t)
  unfolding IsTimed stop_timer
  stopped-IsTimed now t e = e

  started-IsTimed :
      (now : Time) (d : Duration) (t : Telemetry V)
      → (config t).enabled ≡ true
      → 0 < (config t).enabled_at
      → (config t).enabled_at ≤ now
      → pos now +ℤ d ≡ pos (config t).enabled_at +ℤ validity_or_default (config t)
      → IsTimed now (start_timer now d t)
  unfolding IsTimed start_timer
  started-IsTimed now d t e a b q = (e, a, b, ground (arith, q))

  -- A configuration that is written is read back, whether its save succeeds.
  pub config-write :
      (c : TelemetryConfig) (now : Time) (ok : Bool) (t : Telemetry V)
      → (config (write_config c now ok t).0 ≡ c)
        × ((write_config c now ok t).1 ≡ ok)
        × ((write_config c now ok t).0.timer ≡ t.timer)
        × ((write_config c now ok t).0.timer_ends ≡ t.timer_ends)
  unfolding config telemetry_of write_config set_telemetry
  config-write c now true t = (refl, refl, refl, refl)
  config-write c now false t = (refl, refl, refl, refl)

  restarted-IsTimed :
      (over : Bool) (v : Duration) (now : Time) (c : TelemetryConfig) (t : Telemetry V)
      → pos 0 <ℤ v
      → c.enabled ≡ true
      → 0 < c.enabled_at
      → c.enabled_at ≤ now
      → config t ≡ next_validity v over c
      → IsTimed now (restart_timer v (now - c.enabled_at) over (next_validity v over c) now t)
  unfolding restart_timer next_validity
  restarted-IsTimed true v now c t p e a b q = stopped-IsTimed now t (ap (λ k. k.enabled) q)
  restarted-IsTimed false v now c t p e a b q =
      elim (Bool-cases (is_dated (next_validity v false c))) [
        | inl d ↦ rw d (
            started-IsTimed now (v -ℤ pos (now - c.enabled_at)) (stop_timer t)
              (ap (λ k. k.enabled) kept ∙ e) (rw (ap (λ k. k.enabled_at) kept) a)
              (rw (ap (λ k. k.enabled_at) kept) b)
              (rw kept (
                later_deadline now c.enabled_at v b
                ∙ ap (λ w. pos c.enabled_at +ℤ w)
                    (sym (positive_validity (next_validity v false c) p)))))
        | inr d ↦ absurd (ground arith)
      ]
    where
      kept : config (stop_timer t) ≡ next_validity v false c
      kept = unfold stop_timer config telemetry_of in q

  restarted_off :
      (v : Duration) (k : ℕ) (now : Time) (c : TelemetryConfig) (t : Telemetry V)
      → c.enabled ≡ false
      → config t ≡ next_validity v false c
      → IsTimed now (restart_timer v k false (next_validity v false c) now t)
  unfolding restart_timer next_validity
  restarted_off v k now c t e q =
      let off : is_dated (next_validity v false c) ≡ false = ground arith in
      rw off (stopped-IsTimed now t (ap (λ k. k.enabled) q ∙ e))

  set_dated-IsTimed :
      (v : Duration) (now : Time) (t : Telemetry V)
      → pos 0 <ℤ v
      → (config t).enabled ≡ true
      → 0 < (config t).enabled_at
      → (config t).enabled_at ≤ now
      → IsTimed now (set_validity v now true t).0
  unfolding set_validity
  set_dated-IsTimed v now t p e a b =
      let c = config t in
      let over = leb_ℤ v (pos (now - c.enabled_at)) in
      let next = next_validity v over c in
      let small : leb_ℤ v (pos 0) ≡ false = ground arith in
      let dated : is_dated c ≡ true = ground arith in
      rw (small, dated)
        (restarted-IsTimed over v now c (write_config next now true t).0 p e a b
          (config-write next now true t).0)

  set_off-IsTimed :
      (v : Duration) (now : Time) (t : Telemetry V)
      → pos 0 <ℤ v
      → (config t).enabled ≡ false
      → IsTimed now (set_validity v now true t).0
  unfolding set_validity
  set_off-IsTimed v now t p e =
      let c = config t in
      let small : leb_ℤ v (pos 0) ≡ false = ground arith in
      let undated : is_dated c ≡ false = ground arith in
      let next = next_validity v false c in
      rw (small, undated)
        (restarted_off v 0 now c (write_config next now true t).0 e
          (config-write next now true t).0)

  IsTimed-cases :
      {W : Type 0} (now : Time) (t : Telemetry V)
      → IsTimed now t
      → ((config t).enabled ≡ false → t.timer ≡ none → W)
      → ((i : ℕ)
          → (config t).enabled ≡ true
          → 0 < (config t).enabled_at
          → (config t).enabled_at ≤ now
          → t.timer ≡ some i
          → W)
      → W
  unfolding IsTimed
  IsTimed-cases now t h off on = elim (Option-cases t.timer) [
    | inl n ↦ off (rw n at h) n
    | inr (i, q) ↦
        (let (e, a, b, d) : TimedBy now (config t) t.timer_ends (some i) = rw q at h in
          on i e a b q)
  ]

  pub set_validity-IsTimed :
      (v : Duration) (now : Time) (t : Telemetry V)
      → IsTimed now t
      → IsTimed now (set_validity v now true t).0
  set_validity-IsTimed v now t h = elim (Bool-cases (leb_ℤ v (pos 0))) [
    | inl small ↦ unfold set_validity in rw small h
    | inr large ↦
        IsTimed-cases now t h (λ e n. set_off-IsTimed v now t (ground arith) e)
          (λ i e a b q. set_dated-IsTimed v now t (ground arith) e a b)
  ]

  pub set_suppressed-IsTimed :
      (s : Option SuppressedEntry) (now : Time) (ok : Bool) (t : Telemetry V)
      → IsTimed now t
      → IsTimed now (set_suppressed s now ok t).0
  unfolding set_suppressed IsTimed write_config set_telemetry validity_or_default
  set_suppressed-IsTimed s now true t h = elim (Option-cases t.timer) [
    | inl n ↦ rw n (rw n at h)
    | inr (i, q) ↦ rw q (rw q at h)
  ]
  set_suppressed-IsTimed s now false t h = elim (Option-cases t.timer) [
    | inl n ↦ rw n (rw n at h)
    | inr (i, q) ↦ rw q (rw q at h)
  ]

  disable-IsTimed : (now : Time) (ok : Bool) (t : Telemetry V) → IsTimed now (disable now ok t)
  unfolding disable IsTimed write_config set_telemetry
  disable-IsTimed now true t = refl
  disable-IsTimed now false t = refl

  disable_if-IsTimed :
      (o : Option ℕ) (i : ℕ) (now : Time) (ok : Bool) (t : Telemetry V)
      → IsTimed now t
      → IsTimed now (disable_if o i now ok t)
  disable_if-IsTimed none i now ok t h = h
  disable_if-IsTimed (some j) i now ok t h =
      elim (j == i) as (λ b. IsTimed now (if b then disable now ok t else t)) [
        | true ↦ disable-IsTimed now ok t
        | false ↦ h
      ]

  pub timer_ended-IsTimed :
      (i : ℕ) (now : Time) (ok : Bool) (t : Telemetry V)
      → IsTimed now t
      → IsTimed now (timer_ended i now ok t)
  unfolding timer_ended
  timer_ended-IsTimed i now ok t h = disable_if-IsTimed t.timer i now ok t h

  -- As time passes, the timer and the configuration still agree.
  pub later-IsTimed : (now k : ℕ) (t : Telemetry V) → IsTimed now t → IsTimed (now + k) t
  unfolding IsTimed
  later-IsTimed now k t h = elim (Option-cases t.timer) [
    | inl n ↦ rw n (rw n at h)
    | inr (i, q) ↦
        (let (e, a, b, d) : TimedBy now (config t) t.timer_ends (some i) = rw q at h in
          rw q (e, a, omega arith, d))
  ]

  -- What `resumeValidityWindow` leaves when it does not disable telemetry.
  resumed-IsTimed :
      (now : Time) (c : TelemetryConfig) (t : Telemetry V)
      → 0 < now
      → (config t).enabled ≡ true
      → (config t).enabled_at ≡ resumed_at now c
      → (config t).validity ≡ c.validity
      → IsTimed now (start_timer now (validity_or_default c -ℤ pos (now - resumed_at now c)) t)
  resumed-IsTimed now c t p e a v =
      let (above, below) = resumed_on now c p in
      started-IsTimed now (validity_or_default c -ℤ pos (now - resumed_at now c)) t e (rw a above)
        (rw a below)
        (later_deadline now (resumed_at now c) (validity_or_default c) below
          ∙ ap (λ w. pos (resumed_at now c) +ℤ w) (same_validity c (config t) (sym v))
          ∙ ap (λ at. pos at +ℤ validity_or_default (config t)) (sym a))

  undated-IsTimed :
      (now : Time) (t : Telemetry V) → t.timer ≡ none → (config t).enabled ≡ false → IsTimed now t
  unfolding IsTimed
  undated-IsTimed now t n e = subst (TimedBy now (config t) t.timer_ends) (sym n) e

  expired-IsTimed :
      (now : Time) (ok : Bool) (t : Telemetry V)
      → t.timer ≡ none
      → IsTimed now (write_config (resumed now true (config t)) now ok t).0
  expired-IsTimed now ok t n =
      let (q, _, k, _) = config-write (resumed now true (config t)) now ok t in
      undated-IsTimed now (write_config (resumed now true (config t)) now ok t).0 (k ∙ n)
        (unfold resumed in ap (λ c. c.enabled) q)

  -- What `resumeValidityWindow` makes of enabled telemetry, where `moved` tells that the instant of the
  -- enabling was corrected.
  resumed_cases :
      (expired moved : Bool) (now : Time) (ok : Bool) (t : Telemetry V)
      → 0 < now
      → (config t).enabled ≡ true
      → t.timer ≡ none
      → (moved ≡ false → resumed_at now (config t) ≡ (config t).enabled_at)
      → let c = config t in
        let t1 =
          if moved || expired then (write_config (resumed now expired c) now ok t).0 else t in
        IsTimed now (
          if expired
          then t1
          else start_timer now (validity_or_default c -ℤ pos (now - resumed_at now c)) t1)
  resumed_cases true true now ok t p e n m = expired-IsTimed now ok t n
  resumed_cases true false now ok t p e n m = expired-IsTimed now ok t n
  resumed_cases false true now ok t p e n m =
      let t1 = (write_config (resumed now false (config t)) now ok t).0 in
      let q : config t1 ≡ resumed now false (config t) =
        (config-write (resumed now false (config t)) now ok t).0 in
      resumed-IsTimed now (config t) t1 p (unfold resumed in ap (λ c. c.enabled) q)
        (unfold resumed in ap (λ c. c.enabled_at) q) (unfold resumed in ap (λ c. c.validity) q)
  resumed_cases false false now ok t p e n m =
      resumed-IsTimed now (config t) t p e (sym (m refl)) refl

  either-IsTimed :
      (b : Bool) (now : Time) (t u : Telemetry V)
      → (b ≡ false → IsTimed now t)
      → (b ≡ true → IsTimed now u)
      → IsTimed now (if not b then t else u)
  either-IsTimed true now t u off on = on refl
  either-IsTimed false now t u off on = off refl

  pub resume-IsTimed :
      (now : Time) (ok : Bool) (t : Telemetry V)
      → 0 < now
      → t.timer ≡ none
      → IsTimed now (resume_validity_window now ok t)
  unfolding resume_validity_window
  resume-IsTimed now ok t p n =
      let at = resumed_at now (config t) in
      let expired = leb_ℤ (validity_or_default (config t)) (pos (now - at)) in
      let moved = not (at == (config t).enabled_at) in
      either-IsTimed (config t).enabled now t _ (undated-IsTimed now t n)
        (λ e. resumed_cases expired moved now ok t p e n (λ h. ground arith))
