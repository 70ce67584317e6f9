-- ===== src/Http1.antt =====
-- src/load/http1: the response parser and the connection of the HTTP/1.1 load generator.
pub mod Bytes
pub mod Framing
pub mod Parser
pub mod Connection
pub mod Measurement
pub mod Worker
mod Tests
