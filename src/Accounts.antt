-- ===== src/Accounts.antt =====
-- Tenants, users, their sessions and API keys, and the guards in front of a route.
pub mod State
pub mod Rows
pub mod Tokens
pub mod Passwords
pub mod Users
pub mod Tenants
pub mod ApiKeys
pub mod Guards
pub mod Calls
pub mod Invariant
pub mod Sessions
mod Tests
