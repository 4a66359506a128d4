-- ===== src/Linux.antt =====
-- The kernel side of the route manager: routing_linux.go and nftables_linux.go.
pub mod Defs
pub mod Host
pub mod Leak
pub mod Pair
pub mod Forward
pub mod Log
pub mod Sets
pub mod Own
pub mod Lasting
pub mod Complete
pub mod Synced
pub mod Rollback
pub mod Dry
pub mod Forwarding
pub mod Teardown
pub mod Reverted
