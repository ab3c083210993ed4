-- ===== src/Billing/State/Pipeline.antt =====
-- Rows and messages of the usage pipeline: prisma/schema.prisma, and the payloads that
-- src/modules/usage-events, src/modules/usage-pipeline and src/infra/outbox exchange through Kafka.
use meterplex.Prelude.{ℕ, Bool, Option, List, String}
use meterplex.Text.{Text}
use meterplex.Calendar.{Date}
use meterplex.Billing.State.Enums.{
  FeatureType, ResetPeriod, UsageEventStatus, OutboxStatus, DeadLetterStage, DeadLetterStatus,
}

pub record UsageEvent : Type 0 where
  pub event_id : Text
  pub tenant_id : ℕ
  pub subscription_id : Option ℕ
  pub feature_lookup_key : String
  pub amount : ℕ
  pub timestamp : Date
  pub status : UsageEventStatus

-- A message of `usage.raw`. A key that its producer leaves out, or a timestamp that is no date, is
-- `none`. Every producer gives the tenant and a natural number as the amount.
pub record RawEvent : Type 0 where
  pub id : Option ℕ
  pub event_id : Text
  pub tenant_id : ℕ
  pub subscription_id : ℕ
  pub feature : Option String
  pub amount : ℕ
  pub timestamp : Option Date

-- A message of `usage.validated`.
pub record ValidatedEvent : Type 0 where
  pub id : ℕ
  pub event_id : Text
  pub tenant_id : ℕ
  pub validated_subscription_id : ℕ
  pub feature : String
  pub feature_type : FeatureType
  pub reset_period : ResetPeriod
  pub amount : ℕ
  pub timestamp : Date
  pub raw : RawEvent

pub record OutboxRow : Type 0 where
  pub topic : String
  pub aggregate_id : ℕ
  pub payload : RawEvent
  pub status : OutboxStatus
  pub retry_count : ℕ
  pub next_retry_at : Option ℕ

-- A message of `usage.dead_letter`. The source event is named by its event id or by its row.
pub record DeadLetterMessage : Type 0 where
  pub source_event_id : Text
  pub tenant_id : ℕ
  pub failure_stage : DeadLetterStage
  pub original_payload : RawEvent

pub record DeadLetter : Type 0 where
  pub source_event_id : Text
  pub tenant_id : ℕ
  pub topic : String
  pub failure_stage : DeadLetterStage
  pub original_payload : RawEvent
  pub retry_count : ℕ
  pub status : DeadLetterStatus
  pub resolved_by : Option ℕ

-- What was sent to each topic, the latest message last. `down` says of the coming calls of
-- `publish`, in order, which fail; none of the later ones does.
pub record Broker : Type 0 where
  pub raw : List (String × RawEvent)
  pub validated : List ValidatedEvent
  pub duplicates : List Text
  pub dead_letter : List DeadLetterMessage
  pub down : List Bool
