-- ===== src/Realtime.antt =====
-- Sockets: packages/server/src/realtime.
pub mod Connections
pub mod Gateway
