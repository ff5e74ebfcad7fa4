-- ===== src/Frame.antt =====
-- WebSocket frames: include/platform/socket/websocket/Frame.h, src/platform/socket/websocket/Frame.cpp.
pub mod Types
pub mod Reader
pub mod Message
pub mod Writer
mod Examples
pub mod Progress
pub mod Termination
pub mod Layout
pub mod Masking
pub mod Parsing
pub mod Reading
pub mod Delivery
pub mod Fragments
