-- ===== src/Agent.antt =====
-- agent.go: the routes that the agent keeps.
pub mod Defs
pub mod Additions
pub mod Routes
pub mod Order
pub mod Replay
pub mod Routed
pub mod Converge
pub mod Idle
pub mod Remove
pub mod Stale
pub mod Overdue
pub mod Cycle
pub mod Desired
pub mod Standalone
pub mod Ending
pub mod Spared
