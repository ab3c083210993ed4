-- ===== src/Usage/Tests.antt =====
-- Concrete quotas, and the theorems about requests at them.
use meterplex.Prelude.{◌+◌, ◌≤◌, ◌≡◌, refl, true, false, none, some, [], ◌∷◌, arith}
use meterplex.Text.{codes}
use meterplex.Calendar.{Date}
use meterplex.Billing.State.{
  SubscriptionStatus, FeatureType, LimitBehavior, Interval, ResetPeriod, Snapshot, Database,
}
use meterplex.Billing.Monad.{ok}
use meterplex.Usage.Redis.{cache_read}
use meterplex.Usage.Entitlement.{cache_key, get_snapshot, reset_key, usage_from_postgres}
use meterplex.Usage.Check.{check, consume, hard_limit}
use meterplex.Usage.Limit.{current_usage}
use meterplex.Usage.Requests.{consume_bound}
use meterplex.Usage.Sequence.{serve, serve_lem}
use meterplex.Usage.Agreement.{check_then_consume}

abbrev today : Date
today = record { year = 2026; month = 0; day = 20; ms = 0 }

-- Five seats a month, of which four are used.
abbrev seats : Snapshot
seats = record {
  subscription_id = 1;
  feature_lookup_key = "seats";
  feature_type = FeatureType.quota;
  value = none;
  limit = some 5;
  limit_behavior = some LimitBehavior.hard;
  overage_price = none;
  included_amount = none;
  reset_period = some ResetPeriod.monthly;
}

abbrev quota_db : Database
quota_db = record {
  invoices = [];
  line_items = [];
  ledger = [];
  sequences = [];
  subscriptions =
      (
        1,
        record {
          tenant_id = 7;
          plan_id = 2;
          price_id = 3;
          price = record { interval = Interval.monthly; amount = 4900; currency = "USD" };
          status = SubscriptionStatus.active;
          period_start = today;
          period_end = today;
          billing_anchor = 1;
          trial_ends_at = none;
          cancelled_at = none;
        },
      )
      ∷ [];
  snapshots = seats ∷ [];
  aggregates =
      (record {
        tenant_id = 7;
        subscription_id = 1;
        feature_lookup_key = "seats";
        period_key = codes "2026-01";
        amount = 4;
      })
      ∷ [];
  attempts = [];
  webhook_events = [];
  usage_events = [];
  outbox = [];
  cache = [];
  faults = [];
  dead_letters = [];
  broker = record { raw = []; validated = []; duplicates = []; dead_letter = []; down = [] };
  catalog = record { tenants = []; plans = []; prices = []; entitlements = [] };
  next_id = 10;
}

-- The same with a Redis that is down.
abbrev down_db : Database
down_db = record quota_db { faults = true ∷ true ∷ [] }

used_now : current_usage 7 "seats" today (some ResetPeriod.monthly) quota_db ≡ 4
unfolding cache_read usage_from_postgres reset_key
used_now = refl

granted_by_postgres :
    (consume 7 "seats" today 1 down_db).0
    ≡ ok (record { consumed = 1; used = 5; remaining = 0; overage = false })
unfolding consume reset_key
granted_by_postgres = refl

consume_bound_example : (5 ≤ 5) × (false ≡ false)
unfolding get_snapshot hard_limit consume reset_key
consume_bound_example =
    consume_bound 7 "seats" today 1 5 seats down_db refl refl
      (record { consumed = 1; used = 5; remaining = 0; overage = false }) refl

check_then_consume_example :
    (consume 7 "seats" today 1 (check 7 "seats" today quota_db).1).0
    ≡ ok (record { consumed = 1; used = 5; remaining = 0; overage = false })
unfolding get_snapshot check reset_key
check_then_consume_example =
    check_then_consume 7 "seats" today 5 seats quota_db refl refl refl refl refl true 5 4 1
      (some (record { year = 2026; month = 1; day = 1; ms = 0 })) refl

-- One seat is left for the requests for two, one and one more.
serve_lem_example :
    (current_usage 7 "seats" today
        (some ResetPeriod.monthly)
        (serve 7 "seats" today (2 ∷ 1 ∷ 1 ∷ []) quota_db).1
      ≡ current_usage 7 "seats" today (some ResetPeriod.monthly) quota_db
        + (serve 7 "seats" today (2 ∷ 1 ∷ 1 ∷ []) quota_db).0)
    × (current_usage 7 "seats" today
          (some ResetPeriod.monthly)
          (serve 7 "seats" today (2 ∷ 1 ∷ 1 ∷ []) quota_db).1
        ≤ 5)
unfolding get_snapshot hard_limit cache_read usage_from_postgres reset_key
serve_lem_example =
    serve_lem 7 "seats" today 5 seats refl (2 ∷ 1 ∷ 1 ∷ []) quota_db refl refl (omega arith)

one_seat_granted : (serve 7 "seats" today (2 ∷ 1 ∷ 1 ∷ []) quota_db).0 ≡ 1
unfolding serve consume reset_key cache_key
one_seat_granted = refl
