-- ===== src/Reconciliation.antt =====
-- src/modules/admin/reconciliation.service.ts: the runs, the issues they find, and what becomes of an
-- issue. Durations, and the notes that a run itself writes, are left out.
pub mod State
pub mod Usage
pub mod Payments
pub mod Runs
pub mod Books
pub mod Unsourced
pub mod Counted
mod Tests
