-- ===== src/Billing/State/Enums.antt =====
-- The enumerations of prisma/schema.prisma, in the columns that the services read and write.

pub data InvoiceStatus : Type 0 where
  draft finalized paid void : InvoiceStatus

pub data EntryType : Type 0 where
  charge payment credit_note refund adjustment : EntryType

pub data SubscriptionStatus : Type 0 where
  active trialing past_due cancelled paused : SubscriptionStatus

pub data FeatureType : Type 0 where
  boolean quota metered : FeatureType

pub data LimitBehavior : Type 0 where
  hard soft : LimitBehavior

pub data Interval : Type 0 where
  monthly annually : Interval

pub data ResetPeriod : Type 0 where
  monthly annually never : ResetPeriod

pub data AttemptStatus : Type 0 where
  pending succeeded failed cancelled requires_action : AttemptStatus

-- `unhandled` is any other text in the event's type.
pub data EventType : Type 0 where
  payment_succeeded payment_failed payment_requires_action refund_succeeded unhandled : EventType

pub data WebhookStatus : Type 0 where
  pending processing processed failed skipped : WebhookStatus

pub data UsageEventStatus : Type 0 where
  pending validated aggregated rejected duplicate : UsageEventStatus

pub data OutboxStatus : Type 0 where
  pending published failed : OutboxStatus

pub data TenantStatus : Type 0 where
  active suspended cancelled : TenantStatus

pub data PlanStatus : Type 0 where
  active archived : PlanStatus

pub data DeadLetterStage : Type 0 where
  ingestion publishing validation aggregation unknown : DeadLetterStage

pub data DeadLetterStatus : Type 0 where
  failed retrying resolved discarded : DeadLetterStatus
