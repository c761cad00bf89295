-- ===== src/Lock.antt =====
-- src/lock/registry.rs: mutual exclusion by key, among tasks whose steps interleave.
pub mod Semaphore
pub mod Tasks
pub mod Registry
pub mod Protocol
pub mod System
pub mod Invariant
pub mod Exclusion
pub mod Queue
pub mod Progress
