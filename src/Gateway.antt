-- ===== src/Gateway.antt =====
-- src/gateway: the request guards of the HTTP and WebSocket server.
pub mod RateLimit
pub mod Ws
pub mod Auth
pub mod Body
