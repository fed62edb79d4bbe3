-- ===== src/Cache/Refresher.antt =====
-- adapter/cache/refresher.go: data that is fetched again when an interval has passed, with a backoff
-- after failures. `time.Now()` is an argument: `now` while the conditions are tested, `done` after
-- the given refresh function has returned. That function's outcome is an argument too. A call runs
-- under one lock, so it is one step. `int` and `time.Duration` are unbounded integers.
mod Laws
mod Examples
use cliffhanger.Prelude.{ℕ, ◌+◌, ◌*◌, String, Bool, false, not, ◌&&◌, List, [], ◌∷◌, if◌then◌else◌}
use cliffhanger.Prelude.Int.{
  ℤ, pos, ◌+ℤ◌, ltb_ℤ, leb_ℤ, eqb_ℤ, Time, Duration, zero_time, is_zero, since,
}

pub record RefresherOptions : Type 0 where
  pub interval : Duration
  pub failure_threshold : ℤ
  pub backoff_threshold : ℤ
  pub initial_backoff : Duration
  pub repeated_backoff : Duration
  pub final_backoff : Duration

-- RefresherOption
abbrev pub RefresherOption : Type 0
RefresherOption = RefresherOptions → RefresherOptions

pub with_backoff : Duration → Duration → Duration → ℤ → RefresherOption
with_backoff i r f threshold o = record o {
  initial_backoff = i;
  repeated_backoff = r;
  final_backoff = f;
  backoff_threshold = threshold;
}

abbrev pub second : ℕ
second = 1_000_000_000

pub with_default_backoff : RefresherOption
unfolding with_backoff
with_default_backoff =
    with_backoff (pos (15 * second)) (pos (60 * second)) (pos (300 * second)) (pos 3)

pub with_failure_threshold : ℤ → RefresherOption
with_failure_threshold threshold o = record o { failure_threshold = threshold }

pub with_default_failure_threshold : RefresherOption
unfolding with_failure_threshold
with_default_failure_threshold = with_failure_threshold (pos 2)

-- The product with `1 - offset` is in floating point: `scale` is that product for the offset given.
pub with_interval_offset : (Duration → Duration) → RefresherOption
with_interval_offset scale o = record o { interval = scale o.interval }

-- `scale` is the product with `1 - 0.05`
pub with_default_options : (Duration → Duration) → RefresherOption
unfolding with_default_backoff with_default_failure_threshold with_interval_offset
with_default_options scale o =
    with_interval_offset scale (with_default_failure_threshold (with_default_backoff o))

pub apply_options : List RefresherOption → RefresherOptions → RefresherOptions
apply_options [] o = o
apply_options (option ∷ rest) o = apply_options rest (option o)

module _ {ℓ} where
  pub record Refresher (T : Type ℓ) : Type ℓ where
    pub options : RefresherOptions
    pub value : T
    pub last_refresh : Time
    pub last_failure : Time
    pub failure_count : ℕ

  -- what `Refresh` and the given refresh function return
  pub data Result (T : Type ℓ) : Type ℓ where
    ok : T → Result T
    in_backoff : Result T
    failed : String → Result T

  pub data Outcome (T : Type ℓ) : Type ℓ where
    fetched : T → Outcome T
    fault : String → Outcome T

pub get_backoff : RefresherOptions → ℕ → Duration
unfolding ◌+ℤ◌
get_backoff o n =
    if leb_ℤ (pos n) o.backoff_threshold
    then o.initial_backoff
    else if leb_ℤ (pos n) (o.backoff_threshold +ℤ o.backoff_threshold)
    then o.repeated_backoff
    else o.final_backoff

-- `def` is the zero value of `T`.
module _ {ℓ} {T : Type ℓ} (def : T) where
  pub new_refresher : Duration → List RefresherOption → Refresher T
  unfolding apply_options
  new_refresher interval options = record {
    options = apply_options options (record {
      interval = interval;
      failure_threshold = pos 0;
      backoff_threshold = pos 0;
      initial_backoff = pos 0;
      repeated_backoff = pos 0;
      final_backoff = pos 0;
    });
    value = def;
    last_refresh = zero_time;
    last_failure = zero_time;
    failure_count = 0;
  }

  pub reset : Refresher T → Refresher T
  reset r = record r { value = def; last_refresh = zero_time }

module _ {ℓ} {T : Type ℓ} where
  pub should_backoff : Time → Refresher T → Bool
  unfolding get_backoff
  should_backoff now r =
      if eqb_ℤ r.options.backoff_threshold (pos 0)
      then false
      else if is_zero r.last_failure
      then false
      else ltb_ℤ (since now r.last_failure) (get_backoff r.options r.failure_count)

  -- the stored value is still good
  pub is_fresh : Time → Refresher T → Bool
  is_fresh now r =
      not (is_zero r.last_refresh) && ltb_ℤ (since now r.last_refresh) r.options.interval

  -- from the call of the given refresh function on
  pub store : Time → Outcome T → Refresher T → Refresher T × Result T
  store done (fault e) r =
      (record r { last_failure = done; failure_count = r.failure_count + 1 }, failed e)
  store done (fetched v) r = (
    record r { value = v; last_refresh = done; failure_count = 0; last_failure = zero_time },
    ok v,
  )

  pub refresh : Time → Time → Outcome T → Refresher T → Refresher T × Result T
  refresh now done outcome r =
      if is_fresh now r
      then (r, ok r.value)
      else if should_backoff now r
      then (r, in_backoff)
      else store done outcome r

  pub is_failing : Refresher T → Bool
  is_failing r = ltb_ℤ r.options.failure_threshold (pos r.failure_count)
