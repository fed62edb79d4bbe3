-- ===== src/Telemetry/Throttle.antt =====
-- telemetry/telemetry.go: how often an event is published, and what a reset of the counters does.
use cliffhanger.Prelude.{
  ◌<◌, String, ◌≡◌, refl, ap, ◌≢◌, ◌↔◌, ◌⊎◌, inl, inr, Bool, true, false, not, ◌&&◌, ◌||◌, Option,
  none, some, List, [], ◌∷◌, arith, str_eq, eq_iff, if◌then◌else◌, Bool-cases, nat_eq, string_eq,
  contains,
}
use cliffhanger.Prelude.Int.{◌≤ℤ◌, int_eq, Time, Duration, since}
use cliffhanger.Prelude.Dict.{Dict, lookup, insert, lookup-insert}
use cliffhanger.Config.{SuppressedEntry}
use cliffhanger.Telemetry.{Telemetry, config}
use cliffhanger.Telemetry.Emit.{
  Published, message, is_empty, is_suppressed, is_throttled, time_or_zero, publish, emit,
  note_change,
}

-- the event is on no list, and not everything is suppressed
abbrev pub IsWanted : Option SuppressedEntry → String → String → Type 0
IsWanted none domain event = Unit
IsWanted (some s) domain event =
    ((s.domains ≢ []) ⊎ (s.events ≢ []))
    × (contains s.domains domain ≡ false)
    × (contains s.events event ≡ false)

suppressed_iff :
    (o : Option SuppressedEntry) (domain event : String)
    → (is_suppressed o domain event ≡ false) ↔ IsWanted o domain event
unfolding is_suppressed
suppressed_iff none domain event = (λ h. tt, λ h. refl)
suppressed_iff (some s) domain event =
    wanted_lists s.domains s.events (contains s.domains domain) (contains s.events event)
  where
    wanted_lists :
        (ds es : List String) (a b : Bool)
        → ((if is_empty ds && is_empty es then true else a || b) ≡ false)
          ↔ (((ds ≢ []) ⊎ (es ≢ [])) × (a ≡ false) × (b ≡ false))
    wanted_lists [] [] a b =
        (λ h. absurd cc, λ (l, _, _). elim l [ inl n ↦ absurd (n refl) | inr n ↦ absurd (n refl) ])
    wanted_lists [] (e ∷ es) false false = (λ h. (inr (λ q. cc), refl, refl), λ h. refl)
    wanted_lists [] (e ∷ es) true b = (λ h. absurd cc, λ (x, y, z). y)
    wanted_lists [] (e ∷ es) false true = (λ h. absurd cc, λ (x, y, z). z)
    wanted_lists (d ∷ ds) es false false = (λ h. (inl (λ q. cc), refl, refl), λ h. refl)
    wanted_lists (d ∷ ds) es true b = (λ h. absurd cc, λ (x, y, z). y)
    wanted_lists (d ∷ ds) es false true = (λ h. absurd cc, λ (x, y, z). z)

module _ {V : Type 0} where
  publish_iff :
      (topic domain event : String) (values : Dict V) (m : Published V)
      → (publish topic domain event values ≡ message m) ↔ (
          (event ≢ "")
          × (m ≡ record { topic = topic; domain = domain; event = event; values = values }))
  unfolding publish
  publish_iff topic domain event values m = elim (Bool-cases (str_eq event "")) [
    | inl q ↦ rw q (λ h. absurd cc, λ (n, _). absurd (n ((eq_iff event "").0 q)))
    | inr q ↦ rw q (λ h. (λ e. absurd (let k = (eq_iff event "").1 e in cc), cc), λ (_, e). cc)
  ]

  -- `emit` sends a message exactly when telemetry is enabled, the event has a name, and neither it nor its
  -- domain nor everything is suppressed; and the message is that event on the topic that is set.
  pub emit_iff :
      (domain event : String) (values : Dict V) (t : Telemetry V) (m : Published V)
      → (emit domain event values t ≡ message m) ↔ (
          ((config t).enabled ≡ true)
          × IsWanted (config t).suppressed domain event
          × (event ≢ "")
          × (m ≡ record { topic = t.topic; domain = domain; event = event; values = values }))
  unfolding emit
  emit_iff domain event values t m =
      let sent = publish_iff t.topic domain event values m in
      let (here, there) = suppressed_iff (config t).suppressed domain event in
      elim (Bool-cases (config t).enabled) [
        | inl a ↦ elim (Bool-cases (is_suppressed (config t).suppressed domain event)) [
          | inl b ↦ rw (a, b) (λ h. absurd cc, λ (_, w, _, _). absurd (let k = there w in cc))
          | inr b ↦
              rw (a, b)
                (λ h. (refl, here b, (sent.0 h).0, (sent.0 h).1), λ (_, _, w, e). sent.1 (w, e))
        ]
        | inr a ↦ rw a (λ h. absurd cc, λ (e, _, _, _). absurd cc)
      ]

-- Each instant of the list is at least `interval` after the one before it.
abbrev pub IsSpaced : Duration → Time → List Time → Type 0
IsSpaced interval last [] = Unit
IsSpaced interval last (now ∷ rest) =
    ((0 < last) → interval ≤ℤ since now last) × IsSpaced interval now rest

late_enough :
    (now last : Time) (interval : Duration)
    → is_throttled now last interval ≡ false
    → 0 < last
    → interval ≤ℤ since now last
late_enough now last interval h p = ground arith

module _ {V : Type 0} (interval : Duration) (key : String) where
  -- the instants at which `emitOnChange` lets an event of the given key pass, among calls for any keys
  unfoldable pub passes : List (String × Time) → Telemetry V → List Time
  unfolding note_change
  passes [] t = []
  passes ((k, now) ∷ calls) t =
      let (t', throttled) = note_change k interval now t in
      let rest = passes calls t' in if str_eq k key && not throttled then now ∷ rest else rest

  -- Whatever other events are emitted in between, `emitOnChange` lets two calls for the same domain and
  -- event pass only if at least the interval lies between them.
  pub passes-IsSpaced :
      (calls : List (String × Time)) (t : Telemetry V)
      → IsSpaced interval (time_or_zero (lookup key t.emit_timestamps)) (passes calls t)
  unfolding passes
  passes-IsSpaced [] t = tt
  passes-IsSpaced ((k, now) ∷ calls) t =
      let next = lookup-insert k key now t.emit_timestamps in
      let noted = record t { emit_timestamps = insert k now t.emit_timestamps } in
      let throttled = is_throttled now (time_or_zero (lookup k t.emit_timestamps)) interval in
      elim (Bool-cases (str_eq k key)) [
        | inl q ↦ elim (Bool-cases throttled) [
          | inl a ↦ rw (q, a) (passes-IsSpaced calls t)
          | inr a ↦
              rw (q, a)
                (
                  rw (ap (λ x. lookup x t.emit_timestamps) ((eq_iff k key).0 q)) at
                      (late_enough now _ interval a),
                  rw (next, q) at (passes-IsSpaced calls noted),
                )
        ]
        | inr q ↦ elim (Bool-cases throttled) [
          | inl a ↦ rw (q, a) (passes-IsSpaced calls t)
          | inr a ↦ rw (q, a) (rw (next, q) at (passes-IsSpaced calls noted))
        ]
      ]
