-- ===== src/Cache/Reporter/Examples.antt =====
-- Runs of adapter/cache/reporter.go.
use cliffhanger.Prelude.{ℕ, ◌≡◌, refl, true, false, ◌==◌}
use cliffhanger.Prelude.Int.{pos}
use cliffhanger.Prelude.Dict.{lookup, insert}
use cliffhanger.Cache.Reporter.{
  ReportingCache, new_reporting_cache, reported, report_required, find, strategy_requires,
  on_change_only, at_least_every,
}

abbrev sample : ReportingCache ℕ
sample = reported 10 "meter" "W" 7 new_reporting_cache

unchanged_test : report_required ◌==◌ 15 sample on_change_only "meter" "W" 7 ≡ false
unfolding report_required find reported new_reporting_cache strategy_requires lookup insert
unchanged_test = refl

late_test : report_required ◌==◌ 15 sample (at_least_every (pos 4)) "meter" "W" 7 ≡ true
unfolding report_required find reported new_reporting_cache strategy_requires lookup insert
late_test = refl

other_test : report_required ◌==◌ 15 sample on_change_only "meter" "kWh" 7 ≡ true
unfolding report_required find reported new_reporting_cache strategy_requires lookup insert
other_test = refl
