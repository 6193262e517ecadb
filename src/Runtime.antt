-- ===== src/Runtime.antt =====
-- crates/bugpot-runtime: the specification of a container, its images, its calls and its logs.
pub mod Process
pub mod User
pub mod Image
pub mod Logs
pub mod Seccomp
pub mod Oci
pub mod Container
pub mod Cgroup
pub mod Volumes
pub mod Tests
