-- ===== src/Lobby/Service.antt =====
-- packages/server/src/lobby/service.ts: the registry of lobbies.
pub mod Registry
pub mod Create
pub mod Seat
pub mod Leave
pub mod Modify
pub mod Browse
pub mod Valid
pub mod Invariant
pub mod Promises
