-- ===== src/Net.antt =====
-- The part of Go's package `net` that the agent uses: addresses, networks, their texts and tests.
mod Parse
mod Cidr
mod Print
pub mod RoundTrip
pub mod Arithmetic
unfoldable pub use Parse.*
unfoldable pub use Cidr.*
unfoldable pub use Print.*
