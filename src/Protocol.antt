-- ===== src/Protocol.antt =====
-- The wire protocol (internal/protocol).
pub mod Io
pub mod Header
pub mod Codec
pub mod Messages
pub mod Compress
mod Tests
