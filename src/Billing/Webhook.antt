-- ===== src/Billing/Webhook.antt =====
-- src/modules/payments/webhook-processing.service.ts: validation, deduplication and routing.
use meterplex.Prelude.{ℕ, ◌+◌, String, Bool, true, false, Option, none, some, str_eq, if◌then◌else◌}
use meterplex.Prelude.Table
use meterplex.Calendar.{Date}
use meterplex.Billing.State.{EventType, WebhookStatus, WebhookRow, Database}
use meterplex.Billing.Monad.{
  Exec, Result, ok, err, record_not_found, pure, gets, or_throw, modify, ◌>>=◌, ◌>>◌,
}
use meterplex.Billing.Payments.{WebhookEvent, handle_success, handle_failure}
pub mod Dedup
pub mod Books

unfoldable pub find_webhook : String → Database → Option (ℕ × WebhookRow)
unfolding Table.find_first
find_webhook event_id db =
    Table.find_first (λ _ w. str_eq w.provider_event_id event_id) db.webhook_events

-- `webhookEvent.update({ where: { id }, data: { status } })`
unfoldable pub set_status : ℕ → WebhookStatus → Exec (Unit {0})
unfolding Table.lookup Table.update
set_status id status = do
  row ← gets (λ db. Table.lookup id db.webhook_events)
  or_throw row record_not_found
  modify (λ db. record db {
    webhook_events = Table.update id (λ w. record w { status = status }) db.webhook_events;
  })

-- The `switch` on the type of the event, with the status that a normal return leads to.
unfoldable pub route : WebhookEvent → Date → EventType → Exec WebhookStatus
route event now EventType.payment_succeeded = do
  handle_success event now
  pure WebhookStatus.processed
route event now EventType.payment_failed = do handle_failure event now; pure WebhookStatus.processed
route event now EventType.payment_requires_action = pure WebhookStatus.processed
route event now EventType.refund_succeeded = pure WebhookStatus.processed
route event now EventType.unhandled = pure WebhookStatus.skipped

-- the `try` around the `switch`, whose `catch` marks the row as failed
unfoldable pub finish : ℕ → Result WebhookStatus → Exec (Unit {0})
unfolding set_status
finish id (ok status) = set_status id status
finish id (err e) = set_status id WebhookStatus.failed

unfoldable pub create_webhook : String → WebhookEvent → Exec ℕ
create_webhook provider event = do
  id ← gets (λ db. db.next_id)
  modify (λ db. record db {
    webhook_events =
        Table.create id
          (record {
            provider_event_id = event.provider_event_id;
            provider = provider;
            event_type = event.type;
            status = WebhookStatus.processing;
          })
          db.webhook_events;
    next_id = id + 1;
  })
  pure id

unfoldable pub handle_event : WebhookEvent → Date → ℕ → Exec (Unit {0})
unfolding route finish
handle_event event now id db = let (r, db') = route event now event.type db in finish id r db'

-- `event` is what `constructWebhookEvent` gives for the body and the signature, `none` if it
-- throws. A second row for an event is refused by the unique index.
unfoldable pub process_webhook : Option WebhookEvent → String → Date → Exec (Unit {0})
unfolding find_webhook create_webhook handle_event
process_webhook none provider now = pure tt
process_webhook (some event) provider now = do
  seen ← gets (find_webhook event.provider_event_id)
  if Table.is_found seen
      then pure tt
      else do id ← create_webhook provider event; handle_event event now id
