-- ===== src/Pipeline/Validation.antt =====
-- src/modules/usage-pipeline/usage-validation.consumer.ts: messages of `usage.raw` become messages
-- of `usage.validated`, `usage.duplicates` or `usage.dead_letter`. Amounts are naturals, since both
-- producers send such.
use meterplex.Prelude.{
  ℕ, zero, suc, ◌+◌, ◌*◌, ◌≤◌, String, Bool, true, false, not, ◌&&◌, ◌||◌, Option, none, some, List,
  [], ◌∷◌, ◌++◌, ◌==◌, ltb, leb, str_eq, get_or, if◌then◌else◌,
}
use meterplex.Prelude.Table
use meterplex.Text.{Text, codes, text_eq}
use meterplex.Calendar.{Date, get_time}
use meterplex.Billing.State.{
  TenantStatus, FeatureType, ResetPeriod, UsageEvent, UsageEventStatus, RawEvent, ValidatedEvent,
  DeadLetterMessage, DeadLetterStage, Snapshot, Database,
}
use meterplex.Billing.Monad.{
  Exec, record_not_found, pure, gets, or_throw, modify, catch, ◌>>=◌, ◌>>◌,
}
use meterplex.Billing.Generation.{is_boolean}
use meterplex.Billing.Period.{is_current}
use meterplex.Usage.Entitlement.{find_row}
use meterplex.Pipeline.Kafka.{publish_validated, publish_duplicate, publish_dead_letter}
use meterplex.Pipeline.Ingestion.{max_event_age_ms, max_future_drift_ms, find_event}
pub mod Accepted
pub mod Sent
pub mod Handled
pub mod Once
pub mod Consumed

unfoldable pub is_hex : ℕ → Bool
is_hex c = (leb b'0' c && leb c b'9') || (leb b'a' c && leb c b'f') || (leb b'A' c && leb c b'F')

-- `n` hexadecimal digits, and then what `rest` accepts
unfoldable pub hex_digits : ℕ → (Text → Bool) → Text → Bool
unfolding is_hex
hex_digits zero rest t = rest t
hex_digits (suc n) rest [] = false
hex_digits (suc n) rest (c ∷ t) = is_hex c && hex_digits n rest t

unfoldable pub dash : (Text → Bool) → Text → Bool
dash rest [] = false
dash rest (c ∷ t) = c == b'-' && rest t

abbrev pub at_end : Text → Bool
at_end [] = true
at_end (c ∷ t) = false

-- `UUID_REGEX`: groups of 8, 4, 4, 4 and 12 digits
unfoldable pub is_uuid : Text → Bool
unfolding hex_digits dash
is_uuid t =
    hex_digits 8
      (dash
        (hex_digits 4 (dash (hex_digits 4 (dash (hex_digits 4 (dash (hex_digits 12 at_end))))))))
      t

-- Where a message goes.
pub data Verdict : Type 0 where
  rejected : Verdict
  duplicate : Verdict
  valid : ValidatedEvent → Verdict

abbrev pub is_active_tenant : Option TenantStatus → Bool
is_active_tenant none = false
is_active_tenant (some TenantStatus.active) = true
is_active_tenant (some TenantStatus.suspended) = false
is_active_tenant (some TenantStatus.cancelled) = false

abbrev pub is_handled : UsageEventStatus → Bool
is_handled UsageEventStatus.pending = false
is_handled UsageEventStatus.validated = true
is_handled UsageEventStatus.aggregated = true
is_handled UsageEventStatus.rejected = true
is_handled UsageEventStatus.duplicate = true

-- an event that was processed before
unfoldable pub was_handled : Text → Database → Bool
unfolding find_event
was_handled event_id db = elim (find_event event_id db) [
  | none ↦ false
  | some row ↦ is_handled row.1.status
]

-- a timestamp outside the window
unfoldable pub is_out_of_window : Date → Date → Bool
unfolding get_time
is_out_of_window now t =
    ltb (get_time now + max_future_drift_ms) (get_time t)
    || ltb (get_time t + max_event_age_ms) (get_time now)

module _ (now : Date) (e : RawEvent) (db : Database) where
  abbrev pub validated_event : ℕ → String → Date → ℕ → Snapshot → ValidatedEvent
  validated_event id feature t subscription_id s = record {
    id = id;
    event_id = e.event_id;
    tenant_id = e.tenant_id;
    validated_subscription_id = subscription_id;
    feature = feature;
    feature_type = s.feature_type;
    reset_period = get_or s.reset_period ResetPeriod.monthly;
    amount = e.amount;
    timestamp = t;
    raw = e;
  }

  -- the checks of the feature's snapshot and of the amount
  unfoldable pub check_feature : ℕ → String → Date → ℕ → Option Snapshot → Verdict
  check_feature id feature t subscription_id none = Verdict.rejected
  check_feature id feature t subscription_id (some s) =
      if is_boolean s.feature_type
      then Verdict.rejected
      else if leb e.amount 0
      then Verdict.rejected
      else Verdict.valid (validated_event id feature t subscription_id s)

  -- the look for a subscription that is current
  unfoldable pub check_subscription : ℕ → String → Date → Verdict
  unfolding check_feature find_row Table.find_first
  check_subscription id feature t =
      elim (Table.find_first (λ _ s. s.tenant_id == e.tenant_id && is_current s.status)
        db.subscriptions) [
          | none ↦ Verdict.rejected
          | some row ↦ check_feature id feature t row.0 (
              find_row (λ s. s.subscription_id == row.0 && str_eq s.feature_lookup_key feature)
                db.snapshots)
        ]

  -- the checks from the timestamp on
  unfoldable pub check_window : ℕ → String → Option Date → Verdict
  unfolding check_subscription is_out_of_window was_handled
  check_window id feature none = Verdict.rejected
  check_window id feature (some t) =
      if is_out_of_window now t
      then Verdict.rejected
      else if was_handled e.event_id db
      then Verdict.duplicate
      else check_subscription id feature t

  -- the checks of the event's id and of the tenant, and those before
  unfoldable pub check_fields : Option ℕ → Option String → Verdict
  unfolding check_window is_uuid Table.lookup
  check_fields none feature = Verdict.rejected
  check_fields (some id) none = Verdict.rejected
  check_fields (some id) (some feature) =
      if str_eq feature "" || e.amount == 0
      then Verdict.rejected
      else if not (is_uuid e.event_id)
      then Verdict.rejected
      else if not (is_active_tenant (Table.lookup e.tenant_id db.catalog.tenants))
      then Verdict.rejected
      else check_window id feature e.timestamp

  unfoldable pub verdict : Verdict
  unfolding check_fields
  verdict = check_fields e.id e.feature

abbrev pub write_status : ℕ → UsageEventStatus → Database → Database
write_status id status db = record db {
  usage_events = Table.update id (λ u. record u { status = status }) db.usage_events;
}

-- `usageEvent.update`, which fails on a missing row
unfoldable pub update_event : ℕ → UsageEventStatus → Exec (Unit {0})
unfolding Table.lookup Table.update
update_event id status = do
  row ← gets (λ db. Table.lookup id db.usage_events)
  or_throw row record_not_found
  modify (write_status id status)

-- `updateEventStatus`; without an id the client refuses the call
unfoldable pub update_event_status : Option ℕ → UsageEventStatus → Exec (Unit {0})
unfolding update_event
update_event_status none status = pure tt
update_event_status (some id) status = catch (update_event id status) (pure tt)

abbrev pub rejection : RawEvent → DeadLetterMessage
rejection e = record {
  source_event_id = e.event_id;
  tenant_id = e.tenant_id;
  failure_stage = DeadLetterStage.validation;
  original_payload = e;
}

-- `sendToDeadLetter`, whose own failure is only logged
abbrev pub send_to_dead_letter : RawEvent → Exec (Unit {0})
send_to_dead_letter e = catch (publish_dead_letter (rejection e)) (pure tt)

-- `sendToDeadLetter` and the change of status behind it
unfoldable pub reject : RawEvent → Exec (Unit {0})
unfolding update_event_status
reject e = do send_to_dead_letter e; update_event_status e.id UsageEventStatus.rejected

unfoldable pub carry_out : RawEvent → Verdict → Exec (Unit {0})
unfolding reject update_event_status
carry_out e Verdict.rejected = reject e
carry_out e Verdict.duplicate = publish_duplicate e.event_id
carry_out e (Verdict.valid v) = do
  publish_validated v
  update_event_status e.id UsageEventStatus.validated

-- `UsageValidationConsumer.handleMessage`
unfoldable pub validate : Date → RawEvent → Exec (Unit {0})
unfolding verdict carry_out
validate now e = do v ← gets (verdict now e); carry_out e v
