-- ===== src/Examples.antt =====
-- Concrete inputs at which the theorems apply.
mod Settings
mod Cache
mod Gateway
mod Routing
mod Vtysh
mod Chassis
mod State
mod Events
mod Entries
mod Life
mod Bridge
mod Forwarding
mod Kernel
