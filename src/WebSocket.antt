-- ===== src/WebSocket.antt =====
-- packages/gateway/src/websocket
pub mod Url
pub mod Registry
pub mod Handshake
pub mod Connect
pub mod Bridge
