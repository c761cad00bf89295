-- ===== src/Bridge.antt =====
-- src/bridge: the token of a channel, the channels and their registry.
pub mod Token
pub mod Channel
pub mod Registry
