-- ===== src/Backoff.antt =====
-- backoff/backoff.go and backoff/stateful.go: delays that grow with the number of failures. The
-- failure counter is a uint32, and `time.Now()` is an argument.
mod Laws
mod Examples
use cliffhanger.Prelude.{ℕ, ◌+◌, ◌-◌, ◌%◌, Bool, false, leb, if◌then◌else◌}
use cliffhanger.Prelude.Int.{ℤ, pos, ◌+ℤ◌, ltb_ℤ, Time, Duration, zero_time, is_zero}

pub record Backoff : Type 0 where
  pub initial_backoff : Duration
  pub repeated_backoff : Duration
  pub final_backoff : Duration
  pub initial_failure_count : ℕ
  pub repeated_failure_count : ℕ

-- `New`
pub new : Duration → Duration → Duration → ℕ → ℕ → Backoff
new i r f ic rc = record {
  initial_backoff = i;
  repeated_backoff = r;
  final_backoff = f;
  initial_failure_count = ic;
  repeated_failure_count = rc;
}

-- uint32 arithmetic wraps
abbrev pub u32 : ℕ → ℕ
u32 n = n % 4294967296

-- The first test makes the subtraction of the second one exact.
pub delay : Backoff → ℕ → Duration
delay b n =
    if leb n b.initial_failure_count
    then b.initial_backoff
    else if leb (n - b.initial_failure_count) b.repeated_failure_count
    then b.repeated_backoff
    else b.final_backoff

-- `lastFailure.Add(delay).After(now)`
pub should : Backoff → Time → ℕ → Time → Bool
unfolding delay ◌+ℤ◌
should b last_failure n now =
    if is_zero last_failure then false else ltb_ℤ (pos now) (pos last_failure +ℤ delay b n)

pub record Stateful : Type 0 where
  pub backoff : Backoff
  pub last_failure : Time
  pub failures : ℕ

pub new_stateful : Duration → Duration → Duration → ℕ → ℕ → Stateful
unfolding new
new_stateful i r f ic rc = record {
  backoff = new i r f ic rc;
  last_failure = zero_time;
  failures = 0;
}

pub fail : Time → Stateful → Stateful
fail now e = record e { last_failure = now; failures = u32 (e.failures + 1) }

pub next : Time → Stateful → Stateful × Duration
next now e =
    let e' = record e { last_failure = now; failures = u32 (e.failures + 1) } in
    (e', delay e'.backoff e'.failures)

pub should_now : Time → Stateful → Bool
should_now now e = should e.backoff e.last_failure e.failures now

pub reset : Stateful → Stateful
reset e = record e { last_failure = zero_time; failures = 0 }
