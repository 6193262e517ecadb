-- ===== src/Router.antt =====
-- crates/bugpot-router/src/lib.rs: the routing of a request and its answer.
pub mod Headers
pub mod Host
pub mod Tests
pub mod Upgrades
pub mod Splice
pub mod Forward
