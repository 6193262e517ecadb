-- ===== src/Daemon.antt =====
-- cmd/bugpotd and cmd/bugpot: the start of the daemon, and the client of its admin API.
pub mod Secrets
pub mod Settings
pub mod Bootstrap
pub mod Client
pub mod Tests
