-- ===== src/Usage.antt =====
-- Entitlement checks (src/modules/entitlement-check) and the counters in Redis that they use.
pub mod Redis
pub mod Entitlement
pub mod Check
pub mod Limit
pub mod Bound
pub mod Requests
pub mod Agreement
mod Tests
pub mod Sequence
