-- ===== src/Accounts/Sessions.antt =====
-- The life of the tokens of auth.service.ts: each is good for one exchange.
pub mod Revoked
pub mod Reuse
pub mod Reset
pub mod Change
