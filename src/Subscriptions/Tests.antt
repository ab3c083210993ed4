-- ===== src/Subscriptions/Tests.antt =====
-- A tenant that changes its plan, and the theorems about subscriptions at it.
use meterplex.Prelude.{◌≡◌, refl, true, none, some, [], ◌∷◌, arith}
use meterplex.Prelude.Table
use meterplex.Calendar.{Date}
use meterplex.Billing.State.{
  PlanStatus, SubscriptionStatus, FeatureType, Interval, ResetPeriod, Price, Subscription, Database,
}
use meterplex.Billing.Monad.{ok}
use meterplex.Subscriptions.{
  CreateSubscription, create, find_price, is_current_of, new_subscription,
}
use meterplex.Subscriptions.Current.{create_current}

abbrev today : Date
today = record { year = 2026; month = 0; day = 20; ms = 0 }

abbrev monthly_price : Price
monthly_price = record { interval = Interval.monthly; amount = 4900; currency = "USD" }

abbrev old_subscription : Subscription
old_subscription = record {
  tenant_id = 7;
  plan_id = 1;
  price_id = 1;
  price = monthly_price;
  status = SubscriptionStatus.active;
  period_start = today;
  period_end = today;
  billing_anchor = 1;
  trial_ends_at = none;
  cancelled_at = none;
}

abbrev plan_db : Database
plan_db = record {
  invoices = [];
  line_items = [];
  ledger = [];
  sequences = [];
  subscriptions = (4, old_subscription) ∷ [];
  snapshots = [];
  aggregates = [];
  attempts = [];
  webhook_events = [];
  usage_events = [];
  outbox = [];
  cache = [];
  faults = [];
  dead_letters = [];
  broker = record { raw = []; validated = []; duplicates = []; dead_letter = []; down = [] };
  catalog = record {
    tenants = [];
    plans = (2, PlanStatus.active) ∷ [];
    prices = (3, record { plan_id = 2; is_active = true; price = monthly_price }) ∷ [];
    entitlements =
        (record {
          plan_id = 2;
          lookup_key = "calls";
          type = FeatureType.metered;
          value = none;
          limit = none;
          limit_behavior = none;
          overage_price = some 2;
          included_amount = some 100;
          reset_period = some ResetPeriod.monthly;
        })
        ∷ [];
  };
  next_id = 10;
}

abbrev dto : CreateSubscription
dto = record { plan_id = 2; price_id = 3; trial_days = 0 }

keys_below : Table.KeysBelow plan_db.next_id plan_db.subscriptions
unfolding Table.lookup
keys_below k v h = ground arith

create_current_example :
    ((create 7 dto today plan_db).0 ≡ ok (some (new_subscription 7 dto monthly_price today)))
    × (Table.find_many (is_current_of 7) (create 7 dto today plan_db).1.subscriptions
        ≡ (10, new_subscription 7 dto monthly_price today) ∷ [])
    × (Table.find_many (is_current_of 8) (create 7 dto today plan_db).1.subscriptions
        ≡ Table.find_many (is_current_of 8) plan_db.subscriptions)
unfolding Table.lookup find_price
create_current_example =
    create_current 7 dto today plan_db monthly_price keys_below refl refl 8 (omega arith)
