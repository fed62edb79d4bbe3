-- ===== src/Cache/Refresher/Examples.antt =====
-- Instances of the laws of adapter/cache/refresher.go.
use cliffhanger.Prelude.{ℕ, ◌≡◌, refl, [], ◌∷◌, arith, nat_eq, string_eq}
use cliffhanger.Prelude.Int.{pos, int_eq}
use cliffhanger.Cache.Refresher.{
  Refresher, in_backoff, fetched, fault, reset, with_backoff, new_refresher, should_backoff,
  is_fresh, store, refresh,
}
use cliffhanger.Cache.Refresher.Laws.{refresh-backoff, reset-in_backoff}

abbrev sample : Refresher ℕ
sample = new_refresher 0 (pos 10) (with_backoff (pos 5) (pos 20) (pos 60) (pos 1) ∷ [])

abbrev failing : Refresher ℕ
failing = (refresh 100 101 (fault "down") sample).0

refresh-backoff_example :
    let (s, _) = refresh 100 101 (fault "down") sample in
    refresh 103 104 (fetched 8) s ≡ (s, in_backoff)
unfolding refresh is_fresh should_backoff store new_refresher with_backoff
refresh-backoff_example =
    refresh-backoff 100 101 103 104 "down" (fetched 8) sample refl refl refl (λ e. cc) (omega arith)
      (omega arith)

reset-in_backoff_example :
    refresh 103 104 (fetched 8) (reset 0 failing) ≡ (reset 0 failing, in_backoff)
unfolding refresh is_fresh should_backoff store new_refresher with_backoff
reset-in_backoff_example = reset-in_backoff 0 103 104 (fetched 8) failing refl
