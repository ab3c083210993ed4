-- ===== src/Usage/Check.antt =====
-- `check` and `consume` of src/modules/entitlement-check/entitlement-check.service.ts.
use meterplex.Prelude.{
  ℕ, ◌+◌, ◌-◌, String, Bool, true, false, ◌&&◌, ◌||◌, Option, none, some, ◌++◌, ltb, get_or,
  or_else, if◌then◌else◌,
}
use meterplex.Prelude.Table
use meterplex.Text.{Text, codes, show}
use meterplex.Calendar.{Date}
use meterplex.Billing.State.{
  FeatureType, LimitBehavior, Snapshot, UsageEventStatus, OutboxStatus, RawEvent,
}
use meterplex.Billing.Monad.{
  Exec, no_entitlement, not_consumable, pure, throw, gets, modify, transaction, catch, ◌>>=◌, ◌>>◌,
}
use meterplex.Billing.Generation.{is_boolean, is_quota, is_hard}
use meterplex.Usage.Entitlement.{get_snapshot, get_usage, reset_date, count_hard, count_soft}

-- The answers of `check`, one constructor for each shape; texts of reasons are left out.
pub data CheckResponse : Type 0 where
  not_included : CheckResponse
  boolean_feature : Bool → CheckResponse
  quota_feature : Bool → ℕ → ℕ → ℕ → Option Date → CheckResponse
  metered_feature : ℕ → ℕ → ℕ → Option Date → CheckResponse

pub record ConsumeResponse : Type 0 where
  pub consumed : ℕ
  pub used : ℕ
  pub remaining : ℕ
  pub overage : Bool

abbrev pub is_soft : Option LimitBehavior → Bool
is_soft (some LimitBehavior.soft) = true
is_soft (some LimitBehavior.hard) = false
is_soft none = false

abbrev pub quota_answer : Date → Snapshot → ℕ → CheckResponse
quota_answer now s used =
    let limit = get_or s.limit 0 in
    CheckResponse.quota_feature (is_soft s.limit_behavior || ltb used limit) limit used
      (limit - used) (reset_date now s.reset_period)

abbrev pub metered_answer : Date → Snapshot → ℕ → CheckResponse
metered_answer now s used =
    let included = get_or s.included_amount 0 in
    CheckResponse.metered_feature included used (used - included) (reset_date now s.reset_period)

module _ (tenant_id : ℕ) (feature : String) (now : Date) where
  -- The `switch` on the type of the feature.
  unfoldable pub check_type : Snapshot → FeatureType → Exec CheckResponse
  unfolding get_usage reset_date
  check_type s FeatureType.boolean = pure (CheckResponse.boolean_feature (get_or s.value false))
  check_type s FeatureType.quota = do
    used ← get_usage tenant_id feature now s.reset_period
    pure (quota_answer now s used)
  check_type s FeatureType.metered = do
    used ← get_usage tenant_id feature now s.reset_period
    pure (metered_answer now s used)

  unfoldable pub check_snapshot : Option Snapshot → Exec CheckResponse
  unfolding check_type
  check_snapshot none = pure CheckResponse.not_included
  check_snapshot (some s) = check_type s s.feature_type

  unfoldable pub check : Exec CheckResponse
  unfolding check_snapshot get_snapshot
  check = do snapshot ← gets (get_snapshot tenant_id feature); check_snapshot snapshot

  -- The limit of a hard quota that has one.
  unfoldable pub hard_limit : Snapshot → Option ℕ
  hard_limit s = if is_quota s.feature_type && is_hard s.limit_behavior then s.limit else none

  unfoldable pub count_usage : Snapshot → ℕ → Option ℕ → Exec ℕ
  unfolding count_hard count_soft
  count_usage s amount (some limit) = count_hard tenant_id feature now s.reset_period amount limit
  count_usage s amount none = count_soft tenant_id feature now s.reset_period amount

  -- The payload of the outbox row: it has no `id`, no `feature` and no `timestamp`.
  abbrev pub consume_payload : Snapshot → ℕ → Text → RawEvent
  consume_payload s amount event_id = record {
    id = none;
    event_id = event_id;
    tenant_id = tenant_id;
    subscription_id = s.subscription_id;
    feature = none;
    amount = amount;
    timestamp = none;
  }

  -- The event and its row of the outbox; the fresh id stands for the random part of the event's id.
  unfoldable pub record_usage : Snapshot → ℕ → Exec (Unit {0})
  record_usage s amount =
      catch
        (transaction (do
          id ← gets (λ db. db.next_id)
          let event_id =
              codes "consume-"
              ++ (show tenant_id ++ (codes "-" ++ (codes feature ++ (codes "-" ++ show id))))
          modify (λ db. record db {
            usage_events =
                Table.create id
                  (record {
                    event_id = event_id;
                    tenant_id = tenant_id;
                    subscription_id = some s.subscription_id;
                    feature_lookup_key = feature;
                    amount = amount;
                    timestamp = now;
                    status = UsageEventStatus.pending;
                  })
                  db.usage_events;
            outbox =
                Table.create (id + 1)
                  (record {
                    topic = "usage.raw";
                    aggregate_id = id;
                    payload = consume_payload s amount event_id;
                    status = OutboxStatus.pending;
                    retry_count = 0;
                    next_retry_at = none;
                  })
                  db.outbox;
            next_id = id + 2;
          })))
        (pure tt)

  abbrev pub consumed_answer : Snapshot → ℕ → ℕ → ConsumeResponse
  consumed_answer s amount used =
      let limit = get_or (or_else s.limit s.included_amount) 0 in
      record { consumed = amount; used = used; remaining = limit - used; overage = ltb limit used }

  unfoldable pub consume_snapshot : ℕ → Option Snapshot → Exec ConsumeResponse
  unfolding count_usage hard_limit record_usage
  consume_snapshot amount none = throw no_entitlement
  consume_snapshot amount (some s) = if is_boolean s.feature_type then throw not_consumable else do
    used ← count_usage s amount (hard_limit s)
    record_usage s amount
    pure (consumed_answer s amount used)

  unfoldable pub consume : ℕ → Exec ConsumeResponse
  unfolding consume_snapshot get_snapshot
  consume amount = do
    snapshot ← gets (get_snapshot tenant_id feature)
    consume_snapshot amount snapshot
