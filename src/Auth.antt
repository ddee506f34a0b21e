-- ===== src/Auth.antt =====
-- Accounts, one-time tokens and sessions (services/auth/common.py, services/auth_tokens.py).
pub mod Model
pub mod Settings
pub mod Exec
pub mod Tokens
pub mod Guards
pub mod Login
pub mod Accounts
pub mod Sessions
pub mod Rollback
pub mod TokenUse
pub mod SessionUse
pub mod Reset
pub mod Access
pub mod Admits
pub mod Register
pub mod Policy
pub mod Demo
mod Tests
