-- ===== src/Tests.antt =====
-- The theorems at concrete inputs, and runs of the code.
mod Accesses
mod Blobs
mod Bridges
mod Budgets
mod Connections
mod Gated
mod Gates
mod Locks
mod Payloads
mod Protocols
mod Quotas
mod Records
mod Replies
mod Sequences
mod Siphashes
mod TimeFrames
mod Tokens
mod Usages
