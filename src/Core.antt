-- ===== src/Core.antt =====
-- crates/bugpot-core: the per-app lifecycle controller.
pub mod Handle
pub mod Store
pub mod Registry
pub mod Host
pub mod Lifecycle
pub mod Rollout
pub mod Loops
pub mod Tests
pub mod View
pub mod AppHost
pub mod Crud
pub mod Boot
pub mod Probe
