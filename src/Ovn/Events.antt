-- ===== src/Ovn/Events.antt =====
-- ovn.go: the events of the two caches and the refresh loop.
pub mod Loop
pub mod Schedule
pub mod Quiet
pub mod Lost
