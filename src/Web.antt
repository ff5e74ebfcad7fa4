-- ===== src/Web.antt =====
-- The WebSocket of a server: the handshake, then the frames.
pub mod Socket
pub mod Header
pub mod Session
pub mod Returns
mod Examples
