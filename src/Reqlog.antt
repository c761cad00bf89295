-- ===== src/Reqlog.antt =====
-- src/reqlog: the records of finished requests, their way to the writer, and the gate in front of
-- the rows of errors.
pub mod Record
pub mod Sink
pub mod Errors
