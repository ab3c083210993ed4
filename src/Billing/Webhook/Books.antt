-- ===== src/Billing/Webhook/Books.antt =====
-- The books and webhook-processing.service.ts.
use meterplex.Prelude.{ℕ, String, Option, none, some, Bool-cases, inl, inr, arith}
use meterplex.Prelude.Table
use meterplex.Calendar.{Date}
use meterplex.Billing.State.{EventType, WebhookStatus, Database}
use meterplex.Billing.Monad.{Result, ok, err}
use meterplex.Billing.Monad.Keeps.{bind_pure}
use meterplex.Billing.Lifecycle.Ledger.{IsBalanced}
use meterplex.Billing.Payments.{WebhookEvent, handle_success, handle_failure}
use meterplex.Billing.Payments.Success.{SameBooks, SameBooks-IsBalanced, handle_success-IsBalanced}
use meterplex.Billing.Payments.Failure.{handle_failure-IsBalanced}
use meterplex.Billing.Webhook.{
  find_webhook, set_status, route, finish, create_webhook, handle_event, process_webhook,
}
use meterplex.Billing.Webhook.Dedup.{again, fresh}

route-IsBalanced :
    (e : WebhookEvent) (now : Date) (t : EventType) (db : Database)
    → IsBalanced db
    → IsBalanced (route e now t db).1
unfolding route
route-IsBalanced e now EventType.payment_succeeded db b =
    rw (bind_pure (handle_success e now) WebhookStatus.processed db)
      (handle_success-IsBalanced e now db b)
route-IsBalanced e now EventType.payment_failed db b =
    rw (bind_pure (handle_failure e now) WebhookStatus.processed db)
      (handle_failure-IsBalanced e now db b)
route-IsBalanced e now EventType.payment_requires_action db b = b
route-IsBalanced e now EventType.refund_succeeded db b = b
route-IsBalanced e now EventType.unhandled db b = b

books-finish : (id : ℕ) (r : Result WebhookStatus) (db : Database) → SameBooks (finish id r db).1 db
unfolding finish set_status
books-finish id (ok status) db = ground arith
books-finish id (err e) db = ground arith

handle_event-IsBalanced :
    (e : WebhookEvent) (now : Date) (id : ℕ) (db : Database)
    → IsBalanced db
    → IsBalanced (handle_event e now id db).1
unfolding handle_event
handle_event-IsBalanced e now id db b =
    let r : Result WebhookStatus × Database = route e now e.type db in
    SameBooks-IsBalanced (finish id r.0 r.1).1 r.1 (books-finish id r.0 r.1)
      (route-IsBalanced e now e.type db b)

created-IsBalanced :
    (provider : String) (e : WebhookEvent) (db : Database)
    → IsBalanced db
    → IsBalanced (create_webhook provider e db).1
unfolding create_webhook
created-IsBalanced provider e db b = record {
  keys = λ k v h. omega (arith, b.keys k v h);
  settled = b.settled;
  known = λ k h. b.known k (omega arith);
}

-- Balanced books stay balanced whatever a webhook carries: a refused signature, a known event, a
-- success, a failure, a type that is only logged, and a handler that throws.
pub process_webhook-IsBalanced :
    (e : Option WebhookEvent) (provider : String) (now : Date) (db : Database)
    → IsBalanced db
    → IsBalanced (process_webhook e provider now db).1
process_webhook-IsBalanced none provider now db b = unfold process_webhook in b
process_webhook-IsBalanced (some e) provider now db b =
    elim (Bool-cases (Table.is_found (find_webhook e.provider_event_id db))) [
      | inl seen ↦ rw (again e provider now db seen) b
      | inr new ↦ rw (fresh e provider now db new) (
          handle_event-IsBalanced e now db.next_id (create_webhook provider e db).1
            (created-IsBalanced provider e db b))
    ]
