-- ===== src/Handshake.antt =====
-- The opening handshake of a WebSocket: the request of the client, and the response of the server.
pub mod Types
pub mod Lines
pub mod Response
pub mod Request
pub mod Client
pub mod Reading
pub mod Protocols
pub mod Opening
pub mod Agreement
pub mod Termination
pub mod Exceptions
pub mod Fuel
mod Examples
