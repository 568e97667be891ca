-- ===== src/Auth.antt =====
-- Accounts: packages/server/src/auth and packages/shared/src/auth.
pub mod RateLimit
pub mod Validation
pub mod Tables
pub mod Passwords
pub mod Contract
pub mod Service
