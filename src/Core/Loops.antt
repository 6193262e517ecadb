-- ===== src/Core/Loops.antt =====
-- crates/bugpot-core/src/ops/loops.rs: the memory-pressure handler and the CPU counter.
pub mod Pressure
pub mod Cpu
pub mod Sweep
