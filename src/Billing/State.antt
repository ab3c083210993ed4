-- ===== src/Billing/State.antt =====
-- The rows of the tables (prisma/schema.prisma) as the services of billing, payments and entitlement
-- checks read and write them. A UUID is a natural number, and `next_id` is the next one that no row
-- has. Texts that only a log or a reader sees are left out.
use meterplex.Prelude.{ℕ, Bool, Option, List, String}
use meterplex.Prelude.Table.{Table}
use meterplex.Text.{Text}
use meterplex.Calendar.{Date}
mod Enums
mod Pipeline
mod Offers
pub use Enums.*
pub use Pipeline.*
pub use Offers.*

-- Amounts are whole cents. Time values that are only compared are numbers of milliseconds.
pub record Invoice : Type 0 where
  pub tenant_id : ℕ
  pub subscription_id : ℕ
  pub invoice_number : Option Text
  pub status : InvoiceStatus
  pub currency : String
  pub subtotal : ℕ
  pub total : ℕ
  pub period_start : Date
  pub period_end : Date
  pub due_date : Option ℕ
  pub finalized_at : Option ℕ
  pub paid_at : Option ℕ
  pub voided_at : Option ℕ
  pub notes : Option Text

-- A line item, before and after it is stored under an invoice.
pub record Item : Type 0 where
  pub feature_lookup_key : Option String
  pub quantity : ℕ
  pub unit_price_micro_cents : ℕ
  pub amount : ℕ
  pub sort_order : ℕ

pub record LineItem : Type 0 where
  pub invoice_id : ℕ
  pub item : Item

pub record LedgerEntry : Type 0 where
  pub tenant_id : ℕ
  pub invoice_id : ℕ
  pub type : EntryType
  pub debit : ℕ
  pub credit : ℕ
  pub currency : String
  pub external_reference : Option String

pub record Subscription : Type 0 where
  pub tenant_id : ℕ
  pub plan_id : ℕ
  pub price_id : ℕ
  pub price : Price
  pub status : SubscriptionStatus
  pub period_start : Date
  pub period_end : Date
  pub billing_anchor : ℕ
  pub trial_ends_at : Option ℕ
  pub cancelled_at : Option Date

pub record Snapshot : Type 0 where
  pub subscription_id : ℕ
  pub feature_lookup_key : String
  pub feature_type : FeatureType
  pub value : Option Bool
  pub limit : Option ℕ
  pub limit_behavior : Option LimitBehavior
  pub overage_price : Option ℕ
  pub included_amount : Option ℕ
  pub reset_period : Option ResetPeriod

pub record Aggregate : Type 0 where
  pub tenant_id : ℕ
  pub subscription_id : ℕ
  pub feature_lookup_key : String
  pub period_key : Text
  pub amount : ℕ

pub record PaymentAttempt : Type 0 where
  pub invoice_id : ℕ
  pub tenant_id : ℕ
  pub provider_payment_id : String
  pub status : AttemptStatus
  pub amount : ℕ
  pub currency : String
  pub attempt_number : ℕ
  pub retry_of : Option ℕ
  pub next_retry_at : Option ℕ
  pub failure_reason : Option String

pub record WebhookRow : Type 0 where
  pub provider_event_id : String
  pub provider : String
  pub event_type : EventType
  pub status : WebhookStatus

-- The tables, and the counters in Redis behind their keys, the latest write of a key first.
-- `faults` says of the coming calls of Redis, in order, which fail; none of the later ones does.
pub record Database : Type 0 where
  pub invoices : Table Invoice
  pub line_items : List LineItem
  pub ledger : List LedgerEntry
  -- `invoice_sequences`: the year is the key, and the row is `last_value`
  pub sequences : Table ℕ
  pub subscriptions : Table Subscription
  pub snapshots : List Snapshot
  pub aggregates : List Aggregate
  pub attempts : Table PaymentAttempt
  pub webhook_events : Table WebhookRow
  pub usage_events : Table UsageEvent
  pub outbox : Table OutboxRow
  pub cache : List (Text × ℕ)
  pub faults : List Bool
  pub dead_letters : Table DeadLetter
  pub broker : Broker
  pub catalog : Catalog
  pub next_id : ℕ
