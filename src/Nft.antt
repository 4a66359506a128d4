-- ===== src/Nft.antt =====
-- The port forwarding of nftables.go: the rule set, and what it promises.
pub mod Rules
pub mod Chains
pub mod Translations
pub mod Zones
pub mod Keys
pub mod Masquerade
pub mod Sources
