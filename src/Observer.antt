-- ===== src/Observer.antt =====
-- The package prime/observer: a local copy of the hub's devices, things, rooms and areas.
pub mod Items
pub mod Notify
pub mod Set
pub mod Update
mod Laws
mod Examples
