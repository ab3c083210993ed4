-- ===== src/Pipeline/Aggregation/Counters.antt =====
-- The counters in Redis that usage-aggregation.consumer.ts and entitlement-check.service.ts share.
use mathlib.Core.Path.{subst}
use meterplex.Prelude.{ℕ, ◌+◌, ◌≡◌, ◌∙◌, refl, ap, String, Option, none, some, [], ◌∷◌, arith}
use meterplex.Prelude.Table
use meterplex.Text.{Text}
use meterplex.Calendar.{Date}
use meterplex.Billing.State.{ValidatedEvent, UsageEventStatus, ResetPeriod, Database}
use meterplex.Billing.Monad.{
  Result, ok, record_not_found, pure, gets, or_throw, catch, recover, ◌>>◌,
}
use meterplex.Billing.Monad.Keeps.{
  Keeps, Keeps-bind, Keeps-gets, Keeps-or_throw, Keeps-modify, Keeps-catch, bind_ok, catch_ok,
}
use meterplex.Usage.Redis.{cache_read, incr_by, expire, get, read-write}
use meterplex.Usage.Entitlement.{reset_key, cache_key, get_usage, or_postgres}
use meterplex.Pipeline.Kafka.{publish_dead_letter}
use meterplex.Pipeline.Validation.{write_status, update_event}
use meterplex.Pipeline.Aggregation.{
  contribution, build_cache_key, upsert_aggregate, count_in_redis, failure, add_up, aggregate,
}
use meterplex.Pipeline.Aggregation.Keys.{monthly_key}

-- Redis is up, and the counter has this value.
abbrev Counts : Text → ℕ → Database → Type 0
Counts key n db = (db.faults ≡ []) × (cache_read key db.cache ≡ some n)

module _ (key : Text) (amount : ℕ) where
  incr_new :
      (db : Database)
      → db.faults ≡ []
      → cache_read key db.cache ≡ none
      → incr_by key amount db
        ≡ (ok (0 + amount), record db { cache = (key, 0 + amount) ∷ db.cache })
  unfolding incr_by
  incr_new db up new = rw (up, new) refl

  expire_up : (db : Database) → db.faults ≡ [] → expire key db ≡ (ok tt, db)
  unfolding expire
  expire_up db up = rw up refl

  -- the database with a new counter
  abbrev counted : Database → Database
  counted db = record db { cache = (key, 0 + amount) ∷ db.cache }

  count_new :
      (db : Database)
      → db.faults ≡ []
      → cache_read key db.cache ≡ none
      → count_in_redis key amount db ≡ (ok tt, counted db)
  unfolding count_in_redis
  count_new db up new = catch_ok (incr_by key amount >> expire key) (pure tt) (
      bind_ok (incr_by key amount) (λ n. expire key) (incr_new db up new)
      ∙ expire_up (counted db) up)

  update_event-Keeps :
      (id : ℕ) (status : UsageEventStatus) → Keeps (Counts key amount) (update_event id status)
  unfolding update_event
  update_event-Keeps id status =
      Keeps-bind (Counts key amount) (gets (λ db. Table.lookup id db.usage_events)) _
        (Keeps-gets (Counts key amount) (λ db. Table.lookup id db.usage_events))
        λ row.
          Keeps-bind (Counts key amount) (or_throw row record_not_found) _
            (Keeps-or_throw (Counts key amount) row record_not_found)
            λ u. Keeps-modify (Counts key amount) (write_status id status) (λ db h. h)

module _ (e : ValidatedEvent) (key : Text) where
  count_then_status :
      (db : Database)
      → db.faults ≡ []
      → cache_read key db.cache ≡ none
      → Counts key e.amount
          (catch
            (count_in_redis key e.amount >> update_event e.id UsageEventStatus.aggregated)
            (publish_dead_letter (failure e))
            db).1
  count_then_status db up new =
      rw
        (ap
          (λ (p : Result (Unit {0}) × Database). recover p.0 (publish_dead_letter (failure e)) p.1)
          (bind_ok (count_in_redis key e.amount)
            (λ _. update_event e.id UsageEventStatus.aggregated)
            (count_new key e.amount db up new)))
        ((Keeps-catch (Counts key e.amount) (update_event e.id UsageEventStatus.aggregated)
            (publish_dead_letter (failure e))
            (update_event-Keeps key e.amount e.id UsageEventStatus.aggregated)
            (record { at = λ db h. h })).at
          (counted key e.amount db)
          (up, read-write key (0 + e.amount) db.cache ∙ ap some (omega arith)))

aggregate-Counts :
    (e : ValidatedEvent) (db : Database)
    → let key = build_cache_key e.tenant_id e.feature (contribution e).period_key in
      db.faults ≡ [] → cache_read key db.cache ≡ none → Counts key e.amount (aggregate e db).1
unfolding aggregate add_up
aggregate-Counts e db up new =
    count_then_status e (build_cache_key e.tenant_id e.feature (contribution e).period_key)
      (record db { aggregates = upsert_aggregate (contribution e) db.aggregates }) up new

shared_key :
    (now : Date) (e : ValidatedEvent)
    → e.timestamp.year ≡ now.year
    → e.timestamp.month ≡ now.month
    → build_cache_key e.tenant_id e.feature (contribution e).period_key
      ≡ cache_key e.tenant_id e.feature (some ResetPeriod.monthly) now
unfolding cache_key reset_key build_cache_key
shared_key now e y m = rw (monthly_key e, y, m) refl

get_usage_hit :
    (tenant_id : ℕ) (feature : String) (now : Date) (period : Option ResetPeriod) (n : ℕ)
    (db : Database)
    → Counts (cache_key tenant_id feature period now) n db
    → (get_usage tenant_id feature now period db).0 ≡ ok n
unfolding get_usage get or_postgres
get_usage_hit tenant_id feature now period n db (up, hit) = rw (up, hit) refl

-- If Redis is up and has no counter of a feature that is reset monthly, then, whatever Postgres has
-- for this month, the entitlement checks see, after an event of the month has been aggregated, the
-- event's amount alone as the tenant's usage of the feature.
pub counter_restarts :
    (now : Date) (e : ValidatedEvent) (db : Database)
    → e.timestamp.year ≡ now.year
    → e.timestamp.month ≡ now.month
    → db.faults ≡ []
    → cache_read (cache_key e.tenant_id e.feature (some ResetPeriod.monthly) now) db.cache ≡ none
    → (get_usage e.tenant_id e.feature now (some ResetPeriod.monthly) (aggregate e db).1).0
      ≡ ok e.amount
counter_restarts now e db y m up new =
    get_usage_hit e.tenant_id e.feature now (some ResetPeriod.monthly) e.amount (aggregate e db).1 (
      subst (λ k. Counts k e.amount (aggregate e db).1) (shared_key now e y m)
        (aggregate-Counts e db up (ap (λ k. cache_read k db.cache) (shared_key now e y m) ∙ new)))
