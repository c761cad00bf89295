-- ===== src/Sequence.antt =====
-- src/sequence: hi-lo blocks over the durable counters, and the payloads of its two opcodes.
pub mod Block
pub mod Store
pub mod Protocol
pub mod Critical
pub mod Claims
pub mod Serves
pub mod Sets
pub mod Allocator
pub mod Unique
pub mod Lookup
pub mod History
pub mod Preserve
pub mod NoReuse
pub mod LostSet
pub mod Wraps
