-- ===== src/Config.antt =====
-- crates/bugpot-config/src/lib.rs: app specifications and their validation, and the registry host
-- of an image reference. TOML and the `humantime` durations are other packages' code.
pub mod Spec
pub mod Label
pub mod Volumes
pub mod Image
pub mod Validate
pub mod Tests
