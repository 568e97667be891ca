-- ===== src/Match.antt =====
-- Matches: packages/shared/src/match and packages/server/src/match.
pub mod Tubes
pub mod Runtime
pub mod Store
pub mod Handler
