-- ===== src/Billing/Tests.antt =====
-- Concrete rows, runs of the services on them, and the theorems at these inputs.
use meterplex.Prelude.{ℕ, ◌<◌, ◌≡◌, refl, Option, none, some, List, [], ◌∷◌, String, arith}
use meterplex.Prelude.Table
use meterplex.Prelude.Table.{Table}
use meterplex.Text.{Text, codes}
use meterplex.Calendar.{Date, IsDate}
use meterplex.Billing.State.{
  InvoiceStatus, EntryType, SubscriptionStatus, FeatureType, LimitBehavior, Interval, ResetPeriod,
  AttemptStatus, EventType, Invoice, LedgerEntry, Price, Subscription, Snapshot, Aggregate,
  PaymentAttempt, Database,
}
use meterplex.Billing.Lifecycle.Ledger.{IsBalanced, debits, credits}
use meterplex.Billing.Payments.{WebhookEvent}
mod Invoices
mod Payments

abbrev pub jan_31 : Date
jan_31 = record { year = 2026; month = 0; day = 31; ms = 0 }

abbrev pub feb_1 : Date
feb_1 = record { year = 2026; month = 1; day = 1; ms = 0 }

abbrev pub jan_1 : Date
jan_1 = record { year = 2026; month = 0; day = 1; ms = 0 }

abbrev pub jan_16 : Date
jan_16 = record { year = 2026; month = 0; day = 16; ms = 0 }

abbrev pub feb_2 : Date
feb_2 = record { year = 2026; month = 1; day = 2; ms = 5000 }

abbrev pub subscription : Subscription
subscription = record {
  tenant_id = 7;
  plan_id = 2;
  price_id = 3;
  price = record { interval = Interval.monthly; amount = 4900; currency = "USD" };
  status = SubscriptionStatus.active;
  period_start = jan_1;
  period_end = feb_1;
  billing_anchor = 1;
  trial_ends_at = none;
  cancelled_at = none;
}

abbrev pub cancelled_subscription : Subscription
cancelled_subscription = record subscription {
  status = SubscriptionStatus.cancelled;
  cancelled_at = some jan_16;
}

-- 1000 calls are included, and each further one costs half a cent.
abbrev pub api_calls : Snapshot
api_calls = record {
  subscription_id = 1;
  feature_lookup_key = "api_calls";
  feature_type = FeatureType.metered;
  value = none;
  limit = none;
  limit_behavior = some LimitBehavior.soft;
  overage_price = some 50;
  included_amount = some 1000;
  reset_period = some ResetPeriod.monthly;
}

-- Before the first tick: one subscription and its usage.
abbrev pub fresh_db : Database
fresh_db = record {
  invoices = [];
  line_items = [];
  ledger = [];
  sequences = [];
  subscriptions = (1, subscription) ∷ (2, cancelled_subscription) ∷ [];
  snapshots = api_calls ∷ [];
  aggregates =
      (record {
        tenant_id = 7;
        subscription_id = 1;
        feature_lookup_key = "api_calls";
        period_key = codes "2026-01";
        amount = 1250;
      })
      ∷ [];
  attempts = [];
  webhook_events = [];
  usage_events = [];
  outbox = [];
  cache = [];
  faults = [];
  dead_letters = [];
  broker = record { raw = []; validated = []; duplicates = []; dead_letter = []; down = [] };
  catalog = record { tenants = []; plans = []; prices = []; entitlements = [] };
  next_id = 10;
}

pub fresh-IsBalanced : IsBalanced fresh_db
unfolding Table.lookup debits credits
fresh-IsBalanced = record { keys = λ k v h. cc; settled = λ k v h. cc; known = λ k h. (refl, refl) }

abbrev pub open_invoice : Invoice
open_invoice = record {
  tenant_id = 7;
  subscription_id = 1;
  invoice_number = some (codes "INV-2026-0001");
  status = InvoiceStatus.finalized;
  currency = "USD";
  subtotal = 5025;
  total = 5025;
  period_start = jan_1;
  period_end = feb_1;
  due_date = none;
  finalized_at = none;
  paid_at = none;
  voided_at = none;
  notes = none;
}

abbrev pub attempt : PaymentAttempt
attempt = record {
  invoice_id = 10;
  tenant_id = 7;
  provider_payment_id = "pi_1";
  status = AttemptStatus.pending;
  amount = 5025;
  currency = "USD";
  attempt_number = 0;
  retry_of = none;
  next_retry_at = none;
  failure_reason = none;
}

-- One finalized invoice with its charge, and a payment under way.
abbrev pub open_db : Database
open_db = record fresh_db {
  invoices = (10, open_invoice) ∷ [];
  ledger =
      (record {
        tenant_id = 7;
        invoice_id = 10;
        type = EntryType.charge;
        debit = 5025;
        credit = 0;
        currency = "USD";
        external_reference = none;
      })
      ∷ [];
  attempts = (11, attempt) ∷ [];
  next_id = 12;
}

pub open-IsBalanced : IsBalanced open_db
unfolding Table.lookup debits credits
open-IsBalanced = record {
  keys = λ k v h. ground arith;
  settled = λ k v h. ground arith;
  known = λ k h. ground arith;
}

abbrev pub success : WebhookEvent
success = record {
  provider_event_id = "evt_1";
  type = EventType.payment_succeeded;
  provider_payment_id = "pi_1";
  failure_reason = none;
}

abbrev pub failure : WebhookEvent
failure = record {
  provider_event_id = "evt_2";
  type = EventType.payment_failed;
  provider_payment_id = "pi_1";
  failure_reason = some "card_declined";
}
