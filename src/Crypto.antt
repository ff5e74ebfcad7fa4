-- ===== src/Crypto.antt =====
-- Byte buffers (include/crypto, src/crypto); hashing and keys call OpenSSL only and are not modelled.
pub mod DataWrap
pub mod Filling
mod Examples
