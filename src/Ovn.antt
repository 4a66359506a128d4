-- ===== src/Ovn.antt =====
-- The OVN side of the agent: ovn.go, ovn_cache.go and ovn_gateway.go.
pub mod Rows
pub mod Cache
pub mod Gateway
pub mod State
pub mod Events
