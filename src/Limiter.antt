-- ===== src/Limiter.antt =====
-- src/limiter: credits, their stored totals, and the limits on them.
pub mod Credits
pub mod Blob
pub mod Policy
pub mod Bucket
pub mod Subject
pub mod Budget
pub mod Admission
pub mod Gate
pub mod Mutation
pub mod Usage
pub mod Protocol
pub mod Access
pub mod TimeFrame
