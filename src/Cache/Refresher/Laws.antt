-- ===== src/Cache/Refresher/Laws.antt =====
-- When adapter/cache/refresher.go fetches, what it returns, and what it counts.
use cliffhanger.Prelude.{
  ◌+◌, ◌<◌, String, ◌≡◌, refl, ◌≢◌, ◌↔◌, Bool, true, false, List, [], ◌∷◌, arith, lt→ltb, nat_eq,
  string_eq, length,
}
use cliffhanger.Prelude.Int.{ℤ, pos, sub_ℕ, ◌<ℤ◌, ltb_ℤ, eqb_ℤ, eqb_ℤ_iff, int_eq, Time, is_zero}
use cliffhanger.Cache.Refresher.{
  Refresher, ok, in_backoff, Outcome, fetched, fault, get_backoff, reset, should_backoff, is_fresh,
  store, refresh, is_failing,
}

-- The counter of failures agrees with the instant of the last of them.
pub record IsSound {ℓ} {T : Type ℓ} (r : Refresher T) : Type ℓ where
  pub counted : 0 < r.last_failure → 0 < r.failure_count
  pub dated : 0 < r.failure_count → 0 < r.last_failure

module _ {ℓ} {T : Type ℓ} where
  -- A call of `Refresh` that ends after the zero time keeps the counter and the instant of the last
  -- failure in agreement, on every branch.
  pub refresh-IsSound :
      (now done : Time) (outcome : Outcome T) (r : Refresher T)
      → 0 < done
      → IsSound r
      → IsSound (refresh now done outcome r).0
  unfolding refresh store
  refresh-IsSound now done (fetched v) r p s = ground arith
  refresh-IsSound now done (fault e) r p s = ground arith

  stays_fresh :
      (done now' : Time) (v : T) (r : Refresher T)
      → 0 < done
      → sub_ℕ now' done <ℤ r.options.interval
      → is_fresh now' (store done (fetched v) r).0 ≡ true
  unfolding is_fresh store
  stays_fresh done now' v r p h = ground arith

  backs_off :
      (done now' : Time) (e : String) (r : Refresher T)
      → r.options.backoff_threshold ≢ pos 0
      → 0 < done
      → sub_ℕ now' done <ℤ get_backoff r.options (r.failure_count + 1)
      → should_backoff now' (store done (fault e) r).0 ≡ true
  unfolding store should_backoff
  backs_off done now' e r on p h =
      rw
        (
          should_backoff,
          tested (eqb_ℤ r.options.backoff_threshold (pos 0)) (λ c. on ((eqb_ℤ_iff _ (pos 0)).0 c)),
          late done p,
        )
        (within (sub_ℕ now' done) (get_backoff r.options (r.failure_count + 1)) h)
    where
      tested : (b : Bool) → ¬ (b ≡ true) → b ≡ false
      tested b n = ground arith

      late : (t : Time) → 0 < t → is_zero t ≡ false
      late t l = ground arith

      within : (a b : ℤ) → a <ℤ b → ltb_ℤ a b ≡ true
      within a b l = lt→ltb _ _ l

  -- After a successful fetch that ended at `done`, a later call within the interval returns the
  -- fetched value, whatever the refresh function would give, and changes nothing.
  pub refresh-cached :
      (now done now' done' : Time) (v : T) (outcome : Outcome T) (r : Refresher T)
      → is_fresh now r ≡ false
      → should_backoff now r ≡ false
      → 0 < done
      → sub_ℕ now' done <ℤ r.options.interval
      → let (s, _) = refresh now done (fetched v) r in refresh now' done' outcome s ≡ (s, ok v)
  unfolding refresh
  refresh-cached now done now' done' v outcome r stale free p h =
      rw (stale, free) (unfold store in rw (stays_fresh done now' v r p h))

  -- A failed fetch makes every call before the end of the backoff for the new number of failures
  -- return the backoff error and change nothing, so that the refresh function is not called. The
  -- value must not be fresh any more, and backing off must be switched on.
  pub refresh-backoff :
      (now done now' done' : Time) (e : String) (outcome : Outcome T) (r : Refresher T)
      → is_fresh now r ≡ false
      → is_fresh now' r ≡ false
      → should_backoff now r ≡ false
      → r.options.backoff_threshold ≢ pos 0
      → 0 < done
      → sub_ℕ now' done <ℤ get_backoff r.options (r.failure_count + 1)
      → let (s, _) = refresh now done (fault e) r in refresh now' done' outcome s ≡ (s, in_backoff)
  unfolding refresh is_fresh
  refresh-backoff now done now' done' e outcome r stale stale' free on p h =
      rw (stale, free) (unfold store in rw (stale', backs_off done now' e r on p h))

  -- `Reset` while backing off does not make the next call fetch: the call returns the backoff error
  -- and the refresh function is not called.
  pub reset-in_backoff :
      (def : T) (now done : Time) (outcome : Outcome T) (r : Refresher T)
      → should_backoff now r ≡ true
      → refresh now done outcome (reset def r) ≡ (reset def r, in_backoff)
  unfolding refresh reset is_fresh should_backoff store
  reset-in_backoff def now done outcome r h = ground arith

  -- `Reset` while not backing off makes the next call fetch, and return what was fetched.
  pub reset-fetches :
      (def v : T) (now done : Time) (r : Refresher T)
      → should_backoff now r ≡ false
      → (refresh now done (fetched v) (reset def r)).1 ≡ ok v
  unfolding refresh reset is_fresh should_backoff store
  reset-fetches def v now done r h = ground arith

  -- The states after failed fetches that ended at the instants of the list.
  unfoldable pub fail_all : List Time → Refresher T → Refresher T
  unfolding store
  fail_all [] r = r
  fail_all (done ∷ rest) r = fail_all rest (store done (fault "refused") r).0

  fail_all_counts :
      (row : List Time) (r : Refresher T)
      → ((fail_all row r).failure_count ≡ r.failure_count + length row)
        × ((fail_all row r).options ≡ r.options)
  unfolding fail_all
  fail_all_counts [] r = (omega arith, refl)
  fail_all_counts (done ∷ rest) r =
      let ih = fail_all_counts rest (store done (fault "refused") r).0 in
      (omega (arith, ih.0), ih.1)

  -- After a successful fetch, a row of failed fetches makes the refresher report that it is failing
  -- exactly when the row is longer than the failure threshold.
  pub is_failing-fail_all :
      (done : Time) (v : T) (row : List Time) (r : Refresher T)
      → (is_failing (fail_all row (store done (fetched v) r).0) ≡ true)
        ↔ (r.options.failure_threshold <ℤ pos (length row))
  unfolding is_failing store
  is_failing-fail_all done v row r =
      let (n, o) = fail_all_counts row (store done (fetched v) r).0 in rw (n, o) (ground arith)
