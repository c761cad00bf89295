-- ===== src/Tests/Payloads.antt =====
-- src/sequence/protocol.rs: a payload of each kind.
