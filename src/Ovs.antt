-- ===== src/Ovs.antt =====
-- ovs.go: the flows on the provider bridge.
pub mod Flows
pub mod Hairpins
