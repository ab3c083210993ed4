-- ===== src/Pipeline/Aggregation.antt =====
-- src/modules/usage-pipeline/usage-aggregation.consumer.ts: messages of `usage.validated` are added
-- up by tenant, feature, period and subscription.
use meterplex.Prelude.{
  ℕ, ◌+◌, String, Bool, true, false, ◌&&◌, Option, none, some, List, [], ◌∷◌, ◌++◌, ◌==◌, str_eq,
  if◌then◌else◌,
}
use meterplex.Prelude.Table
use meterplex.Text.{Text, codes, show, pad_start, text_eq}
use meterplex.Calendar.{Date}
use meterplex.Billing.State.{
  FeatureType, UsageEventStatus, ValidatedEvent, DeadLetterMessage, DeadLetterStage, Aggregate,
  Database,
}
use meterplex.Billing.Monad.{Exec, pure, modify, catch, ◌>>=◌, ◌>>◌}
use meterplex.Usage.Redis.{incr_by, expire}
use meterplex.Pipeline.Kafka.{publish_dead_letter}
use meterplex.Pipeline.Validation.{update_event}
pub mod Sums
pub mod Keys
pub mod Seen
pub mod Counters

-- The text of a feature's type in a message.
abbrev pub feature_type_text : FeatureType → String
feature_type_text FeatureType.boolean = "BOOLEAN"
feature_type_text FeatureType.quota = "QUOTA"
feature_type_text FeatureType.metered = "METERED"

-- `calculatePeriod`: the key alone; the bounds of the period are stored and never read
unfoldable pub calculate_period : Date → String → Text
unfolding show pad_start
calculate_period event_date reset_period =
    if str_eq reset_period "ANNUALLY"
    then show event_date.year
    else if str_eq reset_period "NEVER"
    then codes "lifetime"
    else show event_date.year ++ (codes "-" ++ pad_start 2 (show (event_date.month + 1)))

-- `buildCacheKey`
unfoldable pub build_cache_key : ℕ → String → Text → Text
unfolding show
build_cache_key tenant_id feature period_key =
    codes "usage:"
    ++ (show tenant_id ++ (codes ":" ++ (codes feature ++ (codes ":" ++ period_key))))

-- the unique index of the aggregates
abbrev pub same_aggregate : Aggregate → Aggregate → Bool
same_aggregate a b =
    a.tenant_id == b.tenant_id
    && str_eq a.feature_lookup_key b.feature_lookup_key
    && text_eq a.period_key b.period_key
    && a.subscription_id == b.subscription_id

-- `INSERT … ON CONFLICT … DO UPDATE SET amount = amount + EXCLUDED.amount`
unfoldable pub upsert_aggregate : Aggregate → List Aggregate → List Aggregate
unfolding text_eq
upsert_aggregate new [] = new ∷ []
upsert_aggregate new (a ∷ rest) =
    let others = upsert_aggregate new rest in
    if same_aggregate a new then record a { amount = a.amount + new.amount } ∷ rest else a ∷ others

-- What one message adds.
unfoldable pub contribution : ValidatedEvent → Aggregate
unfolding calculate_period
contribution e = record {
  tenant_id = e.tenant_id;
  subscription_id = e.validated_subscription_id;
  feature_lookup_key = e.feature;
  period_key = calculate_period e.timestamp (feature_type_text e.feature_type);
  amount = e.amount;
}

-- the `try` around the counter in Redis
unfoldable pub count_in_redis : Text → ℕ → Exec (Unit {0})
unfolding incr_by expire
count_in_redis key amount = catch (do incr_by key amount; expire key) (pure tt)

unfoldable pub add_up : ValidatedEvent → Exec (Unit {0})
unfolding upsert_aggregate contribution count_in_redis build_cache_key update_event
add_up e = do
  modify (λ db. record db { aggregates = upsert_aggregate (contribution e) db.aggregates })
  count_in_redis (build_cache_key e.tenant_id e.feature (contribution e).period_key) e.amount
  update_event e.id UsageEventStatus.aggregated

abbrev pub failure : ValidatedEvent → DeadLetterMessage
failure e = record {
  source_event_id = e.event_id;
  tenant_id = e.tenant_id;
  failure_stage = DeadLetterStage.aggregation;
  original_payload = e.raw;
}

-- `UsageAggregationConsumer.handleMessage`
unfoldable pub aggregate : ValidatedEvent → Exec (Unit {0})
unfolding add_up
aggregate e = catch (add_up e) (publish_dead_letter (failure e))
