-- ===== src/Inspect.antt =====
-- Traffic inspection (internal/inspect).
pub mod Exchange
pub mod Channels
pub mod Buffer
pub mod Manager
mod Tests
