-- ===== src/Adapter.antt =====
-- The package adapter: the persistent state of an adapter and of its things.
pub mod State
pub mod Registry
