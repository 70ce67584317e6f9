-- ===== src/WebSocket.antt =====
-- src/load/websocket: the WebSocket load generator.
pub mod Connection
pub mod Worker
