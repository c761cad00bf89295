-- ===== src/Service.antt =====
-- src/service: the shared TCP port.
pub mod Shape
pub mod Reply
pub mod Opcode
pub mod Auth
pub mod Frame
pub mod Jobs
pub mod Connection
pub mod Reader
pub mod Session
