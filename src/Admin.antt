-- ===== src/Admin.antt =====
-- crates/bugpot-admin: the HTTP front of the controller.
pub mod DeployKey
pub mod Auth
pub mod Status
pub mod Handlers
pub mod Answers
pub mod Tests
