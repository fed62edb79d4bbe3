-- ===== src/Backoff/Laws.antt =====
-- What the delays of backoff/backoff.go and the counter of backoff/stateful.go promise.
use cliffhanger.Prelude.{
  ℕ, ◌+◌, ◌%◌, ◌≤◌, ◌<◌, ◌≡◌, refl, ap, ◌↔◌, true, false, List, [], ◌∷◌, arith, nat_eq, string_eq,
  length,
}
use cliffhanger.Prelude.Int.{pos, ◌+ℤ◌, ◌≤ℤ◌, ◌<ℤ◌, int_eq, Time, Duration}
use cliffhanger.Backoff.{Backoff, Stateful, delay, should, fail, next, should_now, reset}

-- With backoffs that do not shrink from stage to stage, more failures never mean a shorter delay.
pub delay_mono :
    (b : Backoff) (m n : ℕ)
    → b.initial_backoff ≤ℤ b.repeated_backoff
    → b.repeated_backoff ≤ℤ b.final_backoff
    → m ≤ n
    → delay b m ≤ℤ delay b n
unfolding delay
delay_mono b m n h k l = ground arith

-- The delays of consecutive calls of `next`, at the instants of the list.
unfoldable pub delays : List Time → Stateful → List Duration
delays [] e = []
delays (now ∷ rest) e = (next now e).1 ∷ delays rest (next now e).0

-- The delays of the failures number n + 1, n + 2, … of a row.
unfoldable pub stages : Backoff → ℕ → List Time → List Duration
stages b n [] = []
stages b n (_ ∷ rest) = delay b (n + 1) ∷ stages b (n + 1) rest

next_counts :
    (now : Time) (e : Stateful)
    → e.failures + 1 < 4294967296
    → next now e ≡ (
      record e { last_failure = now; failures = e.failures + 1 },
      delay e.backoff (e.failures + 1),
    )
unfolding next
next_counts now e h = rw (wraps_not e.failures h)
  where
    wraps_not : (n : ℕ) → n + 1 < 4294967296 → (n + 1) % 4294967296 ≡ n + 1
    wraps_not n l = omega arith

delays-stages :
    (e : Stateful) (row : List Time)
    → e.failures + length row < 4294967296
    → delays row e ≡ stages e.backoff e.failures row
unfolding delays stages
delays-stages e [] h = refl
delays-stages e (now ∷ rest) h = rw (next_counts now e (omega arith)) (
    ap (λ l. delay e.backoff (e.failures + 1) ∷ l)
      (delays-stages (record e { last_failure = now; failures = e.failures + 1 }) rest
        (omega arith)))

-- After a reset, whatever went before, a row of fewer than 2 ^ 32 failures is answered by the delays
-- of the failures number 1, 2, 3, … .
pub delays-reset :
    (e : Stateful) (row : List Time)
    → length row < 4294967296
    → delays row (reset e) ≡ stages e.backoff 0 row
unfolding reset
delays-reset e row h = delays-stages (record e { last_failure = 0; failures = 0 }) row (omega arith)

-- After a failure at the instant `t`, later than the zero time, backing off is in effect exactly
-- before `t` plus the delay for the counted failures; after a reset it is in effect at no time.
pub should_now_lem :
    (e : Stateful) (t now : Time)
    → 0 < t
    → ((should_now now (fail t e) ≡ true)
        ↔ (pos now <ℤ pos t +ℤ delay e.backoff ((e.failures + 1) % 4294967296)))
      × (should_now now (reset (fail t e)) ≡ false)
unfolding should_now should fail reset
should_now_lem e t now h = ground arith
