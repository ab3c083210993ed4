-- ===== src/Pipeline/Tests/Validation.antt =====
-- Runs of the validation, and the theorems about it at them.
use meterplex.Prelude.{◌++◌, ◌+◌, ◌≡◌, ◌↔◌, refl, some, [], ◌∷◌}
use meterplex.Prelude.Table
use meterplex.Billing.State.{TenantStatus, Database, ValidatedEvent}
use meterplex.Usage.Entitlement.{find_row}
use meterplex.Usage.Check.{consume_payload, record_usage}
use meterplex.Pipeline.Ingestion.{find_event}
use meterplex.Pipeline.Validation.{
  verdict, check_fields, check_window, check_subscription, check_feature, is_uuid, was_handled,
  is_out_of_window, validated_event, validate,
}
use meterplex.Pipeline.Validation.Sent.{IsSendable, sent_iff}
use meterplex.Pipeline.Validation.Handled.{sent}
use meterplex.Pipeline.Validation.Once.{validate_all, sent_once}
use meterplex.Pipeline.Validation.Consumed.{consume_id, pending_row, consumed_never_sent}
use meterplex.Pipeline.Tests.{today, calls, three_calls, stored_row, small_db}

abbrev validated_calls : ValidatedEvent
validated_calls = validated_event today three_calls small_db 1 "calls" today 4 calls

-- The message comes twice.
sent_once_example :
    (sent three_calls.event_id (validate today three_calls small_db).1
      ≡ sent three_calls.event_id small_db + 1)
    × (sent three_calls.event_id
          (validate_all ((today, three_calls) ∷ []) (validate today three_calls small_db).1)
        ≡ sent three_calls.event_id small_db + 1)
unfolding verdict check_fields check_window check_subscription check_feature find_event
    Table.find_first is_uuid was_handled is_out_of_window find_row
sent_once_example =
    sent_once three_calls 1 stored_row today small_db validated_calls ((today, three_calls) ∷ [])
      (refl, refl, refl) refl refl

sent_iff_example :
    ((validate today three_calls small_db).1.broker.validated
      ≡ small_db.broker.validated ++ validated_calls ∷ [])
    ↔ IsSendable today three_calls small_db validated_calls
sent_iff_example = sent_iff today three_calls small_db validated_calls refl

-- The same tenant, suspended.
abbrev suspended_db : Database
suspended_db = record small_db {
  catalog = record small_db.catalog { tenants = (7, TenantStatus.suspended) ∷ [] };
}

consumed_never_sent_example :
    (Table.lookup (10 + 1) (record_usage 7 "calls" today calls 2 small_db).1.outbox
      ≡ some (
          pending_row 7 "calls" today calls 2 small_db 10 (
            consume_payload 7 "calls" today calls 2
              (consume_id 7 "calls" today calls 2 small_db 10))))
    × ((validate today
          (consume_payload 7 "calls" today calls 2 (consume_id 7 "calls" today calls 2 small_db 10))
          small_db).1.broker.validated
        ≡ [])
    × ((validate today
          (consume_payload 7 "calls" today calls 2 (consume_id 7 "calls" today calls 2 small_db 10))
          small_db).1.usage_events
        ≡ small_db.usage_events)
unfolding Table.lookup
consumed_never_sent_example =
    consumed_never_sent 7 "calls" today calls 2 small_db small_db today refl
