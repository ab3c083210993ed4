-- ===== src/Accounts/Invariant.antt =====
-- What any calls of the account services keep.
pub mod Keys
pub mod Owners
pub mod Unique
