-- ===== src/Observer/Laws/Fresh.antt =====
-- When the getters of prime/observer/observer.go ask the hub, and what follows a failure.
use cliffhanger.Prelude.{
  ◌<◌, ◌≡◌, refl, inl, inr, Bool, true, false, not, ◌&&◌, some, arith, Option-cases, nat_eq,
  string_eq,
}
use cliffhanger.Prelude.Int.{sub_ℕ, ◌≤ℤ◌, int_eq, Time}
use cliffhanger.Prelude.Dict.{lookup}
use cliffhanger.Observer.Notify.{Notify}
use cliffhanger.Observer.Set.{ComponentSet, new_set}
use cliffhanger.Observer.Update.{
  Observer, Result, ok, failed, panic, publish, run_strategy, update, after_update, Answer,
  is_refresh_required, take_answer, do_refresh,
}

-- A failed notification makes the next `Refresh`, forced or not, ask the hub.
pub failed-do_refresh :
    (n : Notify) (o : Observer) (force : Bool) (now done : Time) (answer : Answer)
    → (update n o).1 ≡ failed
    → do_refresh force now done answer (update n o).0 ≡ take_answer done answer (update n o).0
unfolding update
failed-do_refresh n o force now done answer h =
    elim (Option-cases (lookup n.component o.strategies)) [
      | inl l ↦ absurd (not_ok (rw (l, update) at h))
      | inr (t, l) ↦ rw (l, update) (stale (run_strategy t n o) (rw (l, update) at h))
    ]
  where
    not_ok : ◌≡◌ {A = Result (Unit {0})} (ok tt) failed → ⊥
    not_ok e = cc

    stale :
        (r : Observer × Result (Unit {0}))
        → (after_update r).1 ≡ failed
        → do_refresh force now done answer (after_update r).0
          ≡ take_answer done answer (after_update r).0
    stale (p, ok v) e = cc
    stale (p, panic) e = cc
    stale (p, failed) e = unfold do_refresh is_refresh_required in ground arith

-- Until the refresh interval has passed since an answer that was taken at a time after the zero time,
-- a refresh that is not forced changes nothing and asks nobody, so a getter returns that answer.
pub do_refresh-cached :
    (now done now' done' : Time) (c : ComponentSet) (answer : Answer) (o : Observer)
    → is_refresh_required now o ≡ true
    → 0 < done
    → sub_ℕ now' done ≤ℤ o.refresh_interval
    → let (p, _) = do_refresh false now done (some (some c)) o in
      (do_refresh false now' done' answer p ≡ (p, ok tt)) × (p.set ≡ c)
unfolding do_refresh take_answer publish new_set
do_refresh-cached now done now' done' c answer o h l i =
    rw h (rw (kept (is_refresh_required now' taken) fresh), refl)
  where
    taken : Observer
    taken = (take_answer done (some (some c)) o).0

    fresh : is_refresh_required now' taken ≡ false
    fresh = unfold is_refresh_required in ground arith

    kept : (b : Bool) → b ≡ false → (not false && not b) ≡ true
    kept b e = ground arith
