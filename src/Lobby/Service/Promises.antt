-- ===== src/Lobby/Service/Promises.antt =====
-- What the service promises to its callers.
pub mod Starting
pub mod Privacy
pub mod Browser
pub mod Heirs
pub mod Errors
pub mod Seats
pub mod Joining
pub mod Meanwhile
pub mod Leaving
