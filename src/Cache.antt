-- ===== src/Cache.antt =====
-- The package adapter/cache: what has been reported of a thing, and data refreshed at intervals.
pub mod Reporter
pub mod Refresher
