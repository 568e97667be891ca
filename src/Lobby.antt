-- ===== src/Lobby.antt =====
-- The lobby: packages/shared/src/lobby and packages/server/src/lobby/service.ts.
pub mod JoinCode
pub mod Settings
pub mod State
pub mod Service
pub mod Wire
pub mod Outbox
pub mod Handler
