-- ===== src/Routing.antt =====
-- routing.go: the commands that the route manager sends.
pub mod Defs
pub mod Batches
pub mod Prefixes
pub mod Permitted
pub mod Listing
