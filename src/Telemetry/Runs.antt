-- ===== src/Telemetry/Runs.antt =====
-- telemetry/telemetry.go: sequences of calls, and timers that end.
use cliffhanger.Prelude.{
  ℕ, ◌+◌, ◌<◌, String, ◌≡◌, refl, inl, inr, Bool, true, Option, some, List, [], ◌∷◌, arith,
  Option-cases, nat_eq, string_eq,
}
use cliffhanger.Prelude.Int.{int_eq, Time, Duration}
use mathlib.Core.Path.{subst}
use cliffhanger.Config.{SuppressedEntry, DefaultStore}
use cliffhanger.Telemetry.{
  Telemetry, enable, set_validity, set_suppressed, timer_ended, apply_config_from_cloud,
  resume_validity_window, new_telemetry, seeded, fresh,
}
use cliffhanger.Telemetry.Window.{
  IsTimed, enable-IsTimed, set_validity-IsTimed, set_suppressed-IsTimed, timer_ended-IsTimed,
  later-IsTimed, resume-IsTimed,
}

-- The state of the telemetry, and the clock.
pub record Machine (V : Type 0) : Type 0 where
  pub now : Time
  pub telemetry : Telemetry V

-- Time passes; a call from outside, whose save succeeds; a timer ends, whose save may fail.
pub data WindowOp : Type 0 where
  wait : ℕ → WindowOp
  enable_op : Bool → WindowOp
  validity_op : Duration → WindowOp
  suppress_op : Option SuppressedEntry → WindowOp
  cloud_op : Bool → Option SuppressedEntry → WindowOp
  timer_op : ℕ → Bool → WindowOp

module _ {V : Type 0} where
  unfoldable pub window_step : WindowOp → Machine V → Machine V
  unfolding enable set_validity set_suppressed apply_config_from_cloud timer_ended
  window_step (wait k) m = record m { now = m.now + k }
  window_step (enable_op b) m = record m { telemetry = (enable b m.now true m.telemetry).0 }
  window_step (validity_op v) m = record m { telemetry = (set_validity v m.now true m.telemetry).0 }
  window_step (suppress_op s) m = record m {
    telemetry = (set_suppressed s m.now true m.telemetry).0;
  }
  window_step (cloud_op b s) m = record m {
    telemetry = apply_config_from_cloud b s m.now true true m.telemetry;
  }
  window_step (timer_op i ok) m = record m { telemetry = timer_ended i m.now ok m.telemetry }

  unfoldable pub window_run : List WindowOp → Machine V → Machine V
  unfolding window_step
  window_run [] m = m
  window_run (op ∷ ops) m = window_run ops (window_step op m)

  step-IsTimed :
      (op : WindowOp) (m : Machine V)
      → 0 < m.now
      → IsTimed m.now m.telemetry
      → (0 < (window_step op m).now) × IsTimed (window_step op m).now (window_step op m).telemetry
  unfolding window_step apply_config_from_cloud
  step-IsTimed (wait k) m p h = (omega arith, later-IsTimed m.now k m.telemetry h)
  step-IsTimed (enable_op b) m p h = (p, enable-IsTimed b m.now m.telemetry p)
  step-IsTimed (validity_op v) m p h = (p, set_validity-IsTimed v m.now m.telemetry h)
  step-IsTimed (suppress_op s) m p h = (p, set_suppressed-IsTimed s m.now true m.telemetry h)
  step-IsTimed (cloud_op b s) m p h = (
    p,
    set_suppressed-IsTimed s m.now true (enable b m.now true m.telemetry).0
        (enable-IsTimed b m.now m.telemetry p),
  )
  step-IsTimed (timer_op i ok) m p h = (p, timer_ended-IsTimed i m.now ok m.telemetry h)

  window_from :
      (ops : List WindowOp) (m : Machine V)
      → 0 < m.now
      → IsTimed m.now m.telemetry
      → IsTimed (window_run ops m).now (window_run ops m).telemetry
  unfolding window_run
  window_from [] m p h = h
  window_from (op ∷ ops) m p h =
      let (q, k) = step-IsTimed op m p h in window_from ops (window_step op m) q k

  new-IsTimed :
      (source : String) (store : DefaultStore) (now : Time) (ok1 ok2 : Bool) (t : Telemetry V)
      → 0 < now
      → new_telemetry source store now ok1 ok2 ≡ some t
      → IsTimed now t
  unfolding new_telemetry
  new-IsTimed source store now ok1 ok2 t p made =
      elim (Option-cases (seeded source store now ok1)) [
        | inl q ↦ cc (rw (q, new_telemetry) at made)
        | inr (s, q) ↦
            (let e : resume_validity_window now ok2 (fresh source s) ≡ t =
                cc (rw (q, new_telemetry) at made) in
              subst (IsTimed now) e (resume-IsTimed now ok2 (fresh source s) p refl))
      ]

  -- From the start of the program on any stored configuration, through any waits, calls whose saves
  -- succeed and timers that end, stale ones included, telemetry is enabled exactly while a timer runs that
  -- ends when the validity has passed since the instant of its enabling.
  pub window_run-IsTimed :
      (source : String) (store : DefaultStore) (now : Time) (ok1 ok2 : Bool) (t : Telemetry V)
      (ops : List WindowOp)
      → 0 < now
      → new_telemetry source store now ok1 ok2 ≡ some t
      → let m = window_run ops (record { now = now; telemetry = t }) in IsTimed m.now m.telemetry
  window_run-IsTimed source store now ok1 ok2 t ops p made =
      window_from ops (record { now = now; telemetry = t }) p
        (new-IsTimed source store now ok1 ok2 t p made)
