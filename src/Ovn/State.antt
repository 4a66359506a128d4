-- ===== src/Ovn/State.antt =====
-- ovn.go: the state that the agent derives from the two databases.
pub mod Routers
pub mod Nets
pub mod Nats
pub mod Refresh
pub mod Networks
pub mod Owners
pub mod Collected
pub mod Announced
