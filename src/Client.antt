-- ===== src/Client.antt =====
-- The client program: internal/client.
pub mod Udp
pub mod Reconnect
pub mod Control
mod Tests
