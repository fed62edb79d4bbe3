-- ===== src/Backoff/Examples.antt =====
-- Runs of backoff/backoff.go at the inputs of backoff/stateful_test.go, and instances of its laws.
use cliffhanger.Prelude.{◌≡◌, refl, [], ◌∷◌, arith, nat_eq, string_eq}
use cliffhanger.Prelude.Int.{pos, int_eq}
use cliffhanger.Backoff
use cliffhanger.Backoff.{Backoff, Stateful, new_stateful, delay, fail, should_now, reset}
use cliffhanger.Backoff.Laws.{delays, stages, delays-reset}

abbrev sample : Stateful
sample = new_stateful (pos 1) (pos 2) (pos 3) 1 2

regular : delays (5 ∷ 6 ∷ 7 ∷ 8 ∷ 9 ∷ []) sample ≡ pos 1 ∷ pos 2 ∷ pos 2 ∷ pos 3 ∷ pos 3 ∷ []
unfolding delays new_stateful Backoff.next delay
regular = refl

delays-reset_example : delays (7 ∷ 8 ∷ []) (reset sample) ≡ stages sample.backoff 0 (7 ∷ 8 ∷ [])
delays-reset_example = delays-reset sample (7 ∷ 8 ∷ []) (omega arith)
