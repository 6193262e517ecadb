-- ===== src/Egress.antt =====
-- crates/bugpot-egress: the addresses, the allowlists, the index of live endpoints, and the DNS
-- handler in front of them.
pub mod Netns
pub mod Nft
pub mod IpSet
pub mod Allocator
pub mod Allowlist
pub mod Store
pub mod Engine
pub mod Setup
pub mod Dns
pub mod Tests
