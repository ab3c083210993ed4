-- ===== src/Pipeline/Aggregation/Sums.antt =====
-- What usage-aggregation.consumer.ts adds up, key by key.
use mathlib.Core.List.{Permᴰ}
use meterplex.Prelude.{
  ℕ, ◌+◌, ◌≡◌, ◌∙◌, refl, ap, true, List, [], ◌∷◌, arith, if◌then◌else◌, inl, inr, Bool-cases,
  eq_iff,
}
use meterplex.Prelude.Table
use meterplex.Text.{Text, text_eq_sound}
use meterplex.Billing.State.{UsageEventStatus, ValidatedEvent, Aggregate, Database}
use meterplex.Billing.Monad.{record_not_found, pure, gets, or_throw, ◌>>◌}
use meterplex.Billing.Monad.Keeps.{
  Keeps, Keeps-bind, Keeps-pure, Keeps-gets, Keeps-or_throw, Keeps-modify, Keeps-catch,
}
use meterplex.Pipeline.Kafka.{publish_dead_letter}
use meterplex.Usage.Redis.{redis-Keeps, incr_by, expire}
use meterplex.Pipeline.Validation.{write_status, update_event}
use meterplex.Pipeline.Aggregation.{
  same_aggregate, upsert_aggregate, contribution, build_cache_key, count_in_redis, failure, add_up,
  aggregate,
}

-- The amount for the key of `k`, over all rows.
unfoldable pub total : Aggregate → List Aggregate → ℕ
total k [] = 0
total k (a ∷ rest) = (if same_aggregate a k then a.amount else 0) + total k rest

-- Rows with the same key are the same for any third.
same_key : (a b k : Aggregate) → same_aggregate a b ≡ true → same_aggregate a k ≡ same_aggregate b k
same_key a b k h =
    let t : a.tenant_id ≡ b.tenant_id = ground (arith, h) in
    let f : a.feature_lookup_key ≡ b.feature_lookup_key = (eq_iff _ _).0 (ground (arith, h)) in
    let p : a.period_key ≡ b.period_key = text_eq_sound _ _ (ground (arith, h)) in
    let s : a.subscription_id ≡ b.subscription_id = ground (arith, h) in rw (t, f, p, s) refl

-- An upsert adds its amount under its key and nothing elsewhere.
pub total-upsert :
    (k new : Aggregate) (t : List Aggregate)
    → total k (upsert_aggregate new t)
      ≡ total k t + (if same_aggregate new k then new.amount else 0)
unfolding total upsert_aggregate
total-upsert k new [] = omega arith
total-upsert k new (a ∷ rest) = elim (Bool-cases (same_aggregate a new)) [
  | inr other ↦ rw other (omega (arith, total-upsert k new rest))
  | inl same ↦
      rw (same, same_key a new k same)
        (elim (Bool-cases (same_aggregate new k)) [
          | inl mine ↦ rw mine (omega arith)
          | inr foreign ↦ rw foreign (omega arith)
        ])
]

abbrev part : Aggregate → ValidatedEvent → ℕ
part k e = if same_aggregate (contribution e) k then e.amount else 0

-- What messages add under a key.
abbrev pub contributed : Aggregate → List ValidatedEvent → ℕ
contributed k [] = 0
contributed k (e ∷ es) = part k e + contributed k es

-- Messages of `usage.validated`, one after the other; a message whose processing fails is left at
-- that.
unfoldable pub aggregate_all : List ValidatedEvent → Database → Database
unfolding aggregate
aggregate_all [] db = db
aggregate_all (e ∷ es) db = aggregate_all es (aggregate e db).1

-- The rows are these.
abbrev Rows : List Aggregate → Database → Type 0
Rows t db = db.aggregates ≡ t

module _ (t : List Aggregate) where
  count_in_redis-Keeps : (key : Text) (amount : ℕ) → Keeps (Rows t) (count_in_redis key amount)
  unfolding count_in_redis incr_by expire
  count_in_redis-Keeps key amount =
      Keeps-catch (Rows t) (incr_by key amount >> expire key) (pure tt)
        (Keeps-bind (Rows t) (incr_by key amount) (λ _. expire key)
          (redis-Keeps (Rows t) _ (λ rest db h. h) (record { at = λ db h. h }))
          (λ n. redis-Keeps (Rows t) (pure tt) (λ rest db h. h) (Keeps-pure (Rows t) tt)))
        (Keeps-pure (Rows t) tt)

  update_event-Keeps :
      (id : ℕ) (status : UsageEventStatus) → Keeps (Rows t) (update_event id status)
  unfolding update_event
  update_event-Keeps id status =
      Keeps-bind (Rows t) (gets (λ db. Table.lookup id db.usage_events)) _
        (Keeps-gets (Rows t) (λ db. Table.lookup id db.usage_events))
        λ row.
          Keeps-bind (Rows t) (or_throw row record_not_found) _
            (Keeps-or_throw (Rows t) row record_not_found)
            λ u. Keeps-modify (Rows t) (write_status id status) (λ db h. h)

-- A message changes the rows by its contribution, whatever calls of Redis or Kafka fail and whether
-- its event's row is there.
pub aggregates-aggregate :
    (e : ValidatedEvent) (db : Database)
    → (aggregate e db).1.aggregates ≡ upsert_aggregate (contribution e) db.aggregates
unfolding aggregate add_up
aggregates-aggregate e db =
    (Keeps-catch (Rows t)
        (count_in_redis key e.amount >> update_event e.id UsageEventStatus.aggregated)
        (publish_dead_letter (failure e))
        (Keeps-bind (Rows t) (count_in_redis key e.amount)
          (λ _. update_event e.id UsageEventStatus.aggregated) (count_in_redis-Keeps t key e.amount)
          (λ u. update_event-Keeps t e.id UsageEventStatus.aggregated))
        (record { at = λ db h. h })).at
      (record db { aggregates = t }) refl
  where
    t : List Aggregate
    t = upsert_aggregate (contribution e) db.aggregates

    key : Text
    key = build_cache_key e.tenant_id e.feature (contribution e).period_key

amount_lem : (e : ValidatedEvent) → (contribution e).amount ≡ e.amount
unfolding contribution
amount_lem e = refl

-- Whatever calls of Redis or Kafka fail, the amount of a key over all aggregates grows by the amounts
-- of the messages for it.
pub total-aggregate_all :
    (k : Aggregate) (es : List ValidatedEvent) (db : Database)
    → total k (aggregate_all es db).aggregates ≡ total k db.aggregates + contributed k es
unfolding aggregate_all
total-aggregate_all k [] db = omega arith
total-aggregate_all k (e ∷ es) db =
    let first : total k (aggregate e db).1.aggregates ≡ total k db.aggregates + part k e =
      rw aggregates-aggregate (total-upsert k (contribution e) db.aggregates) in
    omega (arith, total-aggregate_all k es (aggregate e db).1, first)

contributed-Perm :
    (k : Aggregate) {es fs : List ValidatedEvent}
    → Permᴰ es fs
    → contributed k es ≡ contributed k fs
contributed-Perm k Permᴰ.nil = refl
contributed-Perm k (Permᴰ.cons {a} {b} e p) = omega (arith, contributed-Perm k p, ap (part k) e)
contributed-Perm k (Permᴰ.swap {a} {b} {a'} {b'} e f) = omega (arith, ap (part k) e, ap (part k) f)
contributed-Perm k (Permᴰ.trans p q) = contributed-Perm k p ∙ contributed-Perm k q

-- The order in which the messages of `usage.validated` come does not matter for the amount of any
-- key.
pub aggregate_all-Perm :
    (k : Aggregate) (es fs : List ValidatedEvent) (db : Database)
    → Permᴰ es fs
    → total k (aggregate_all es db).aggregates ≡ total k (aggregate_all fs db).aggregates
aggregate_all-Perm k es fs db p =
    omega (arith, total-aggregate_all k es db, total-aggregate_all k fs db, contributed-Perm k p)
