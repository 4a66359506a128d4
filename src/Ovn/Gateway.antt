-- ===== src/Ovn/Gateway.antt =====
-- ovn_gateway.go: what the agent writes to the NB database. A write is a transaction, a list of
-- operations; the database is a parameter that answers each transaction by the ones before it.
pub mod Defs
pub mod Lead
pub mod Groups
pub mod Leading
pub mod Complete
pub mod Drain
pub mod Written
pub mod Draining
pub mod Migrated
pub mod Routing
pub mod Managed
pub mod Removed
pub mod Removing
pub mod Sent
pub mod Virtual
pub mod Settled
pub mod Untouched
