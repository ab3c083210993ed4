-- ===== src/Billing.antt =====
-- Invoices, payments and the ledger, over one database.
pub mod State
pub mod Monad
pub mod Numbers
pub mod Lifecycle
pub mod Overage
pub mod Generation
pub mod Period
pub mod Cron
pub mod Payments
pub mod Webhook
pub mod Tests
