-- ===== src/Text.antt =====
-- Texts as rows of bytes, and the parser of items between delimiters.
pub mod Bytes
pub mod Numbers
pub mod Parser
pub mod Finding
pub mod Items
pub mod Splitting
mod Examples
