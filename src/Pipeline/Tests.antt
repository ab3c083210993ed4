-- ===== src/Pipeline/Tests.antt =====
-- A small database, an event and its message, which the runs of the pipeline start from.
use meterplex.Prelude.{none, some, [], ◌∷◌}
use meterplex.Text.{codes}
use meterplex.Calendar.{Date}
use meterplex.Billing.State.{
  TenantStatus, SubscriptionStatus, FeatureType, Interval, ResetPeriod, UsageEventStatus,
  OutboxStatus, DeadLetterStage, DeadLetterStatus, Snapshot, UsageEvent, RawEvent, ValidatedEvent,
  OutboxRow, DeadLetter, Database,
}
mod Validation
mod Aggregation
mod Ingestion
mod Letters
mod Outbox

abbrev pub today : Date
today = record { year = 2026; month = 0; day = 20; ms = 0 }

abbrev pub calls : Snapshot
calls = record {
  subscription_id = 4;
  feature_lookup_key = "calls";
  feature_type = FeatureType.metered;
  value = none;
  limit = none;
  limit_behavior = none;
  overage_price = some 2;
  included_amount = some 100;
  reset_period = some ResetPeriod.monthly;
}

abbrev pub three_calls : RawEvent
three_calls = record {
  id = some 1;
  event_id = codes "0f0e0d0c-1111-2222-3333-0123456789ab";
  tenant_id = 7;
  subscription_id = 4;
  feature = some "calls";
  amount = 3;
  timestamp = some today;
}

abbrev pub stored_row : UsageEvent
stored_row = record {
  event_id = codes "0f0e0d0c-1111-2222-3333-0123456789ab";
  tenant_id = 7;
  subscription_id = some 4;
  feature_lookup_key = "calls";
  amount = 3;
  timestamp = today;
  status = UsageEventStatus.pending;
}

abbrev pub outbox_row : OutboxRow
outbox_row = record {
  topic = "usage.raw";
  aggregate_id = 1;
  payload = three_calls;
  status = OutboxStatus.pending;
  retry_count = 0;
  next_retry_at = none;
}

abbrev pub letter : DeadLetter
letter = record {
  source_event_id = codes "0f0e0d0c-1111-2222-3333-0123456789ab";
  tenant_id = 7;
  topic = "usage.raw";
  failure_stage = DeadLetterStage.validation;
  original_payload = three_calls;
  retry_count = 0;
  status = DeadLetterStatus.failed;
  resolved_by = none;
}

abbrev pub small_db : Database
small_db = record {
  invoices = [];
  line_items = [];
  ledger = [];
  sequences = [];
  subscriptions =
      (
        4,
        record {
          tenant_id = 7;
          plan_id = 2;
          price_id = 3;
          price = record { interval = Interval.monthly; amount = 4900; currency = "USD" };
          status = SubscriptionStatus.active;
          period_start = today;
          period_end = today;
          billing_anchor = 1;
          trial_ends_at = none;
          cancelled_at = none;
        },
      )
      ∷ [];
  snapshots = calls ∷ [];
  aggregates = [];
  attempts = [];
  webhook_events = [];
  usage_events = (1, stored_row) ∷ [];
  outbox = (2, outbox_row) ∷ [];
  cache = [];
  faults = [];
  dead_letters = (3, letter) ∷ [];
  broker = record { raw = []; validated = []; duplicates = []; dead_letter = []; down = [] };
  catalog = record {
    tenants = (7, TenantStatus.active) ∷ [];
    plans = [];
    prices = [];
    entitlements = [];
  };
  next_id = 10;
}
