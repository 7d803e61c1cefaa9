-- ===== src/Gateway.antt =====
-- internal/gateway: the proxy and the audit of what passes through it.
pub mod Stream
pub mod Sse
pub mod Usage
pub mod Headers
pub mod Spool
pub mod WebsocketLog
pub mod Tunnel
