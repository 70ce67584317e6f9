-- ===== src/Load.antt =====
-- src/load/shared: what the HTTP/1.1 and the WebSocket load generators share.
mod Tests
pub mod Effects
pub mod Measurement
pub mod Aggregate
pub mod Rate
pub mod Coordinator
pub mod Options
pub mod Worker
pub mod Backpressure
