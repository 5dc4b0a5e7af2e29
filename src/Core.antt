-- ===== src/Core.antt =====
-- src/core: what every component shares.
pub mod Errors
pub mod Backoff
pub mod Emitter
pub mod HeldLock
