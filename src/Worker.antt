-- ===== src/Worker.antt =====
-- src/worker: the broker that the tabs share.
pub mod Broker
