-- ===== src/Observer/Laws.antt =====
-- What the observer of prime/observer/observer.go keeps and what it lets its clients see.
pub mod Sound
pub mod View
pub mod Fresh
