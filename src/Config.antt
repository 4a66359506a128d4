-- ===== src/Config.antt =====
-- config.go: the configuration, its layers, its validation and the operating mode.
mod Defs
mod Validate
mod Mode
mod Layers
pub mod Rules
pub mod Sound
pub mod Modes
pub mod Precedence
pub mod Provider
unfoldable pub use Defs.*
unfoldable pub use Validate.*
unfoldable pub use Mode.*
unfoldable pub use Layers.*
