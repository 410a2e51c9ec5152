-- ===== src/Oncrpc.antt =====
-- The package oncrpc: records on a connection.
pub mod Record
pub mod Framing
pub mod Writing
pub mod Reading
pub mod Message
pub mod Fault
pub mod ServerCodec
pub mod Response
pub mod ClientCodec
pub mod Dispatch
pub mod Verdicts
pub mod Reports
pub mod Calls
pub mod Wire
pub mod Unoffered
