-- ===== src/Server.antt =====
-- The tunnel server (internal/server): the UDP relay, the port allocator, the HTTP router, the
-- stream pool, and the tunnels of the connected clients.
pub mod Udp
pub mod Ports
pub mod Router
pub mod Streams
pub mod Tunnels
pub mod Hosts
pub mod Auth
mod Tests
