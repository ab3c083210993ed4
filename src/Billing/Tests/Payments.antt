-- ===== src/Billing/Tests/Payments.antt =====
-- The theorems about payments and webhooks at concrete rows.
use meterplex.Prelude.{◌≡◌, some, [], ◌∷◌, arith}
use meterplex.Prelude.Table
use meterplex.Billing.State.{InvoiceStatus, Invoice, PaymentAttempt, Database}
use meterplex.Billing.Monad.{ok}
use meterplex.Billing.Lifecycle.Ledger.{IsBalanced}
use meterplex.Billing.Payments.Intents.{AttemptsBounded, create_for_invoice-AttemptsBounded}
use meterplex.Billing.Payments.{create_for_invoice, attempts_of}
use meterplex.Billing.Webhook.{process_webhook}
use meterplex.Billing.Webhook.Dedup.{process_webhook_twice}
use meterplex.Billing.Webhook.Books.{process_webhook-IsBalanced}
use meterplex.Billing.Tests.{feb_2, feb_1, open_invoice, open_db, open-IsBalanced, attempt, success}

process_webhook_twice_example :
    process_webhook
      (some success)
      "mock"
      feb_2
      (process_webhook (some success) "mock" feb_1 open_db).1
    ≡ (ok tt, (process_webhook (some success) "mock" feb_1 open_db).1)
process_webhook_twice_example = process_webhook_twice success "mock" "mock" feb_1 feb_2 open_db

process_webhook-IsBalanced_example :
    IsBalanced (process_webhook (some success) "mock" feb_2 open_db).1
process_webhook-IsBalanced_example =
    process_webhook-IsBalanced (some success) "mock" feb_2 open_db open-IsBalanced

abbrev paid_invoice : Invoice
paid_invoice = record open_invoice { status = InvoiceStatus.paid }

abbrev paid_db : Database
paid_db = record open_db { invoices = (10, paid_invoice) ∷ [] }

open-AttemptsBounded : AttemptsBounded open_db
unfolding attempts_of Table.find_many
open-AttemptsBounded = λ j. ground arith

create_for_invoice-AttemptsBounded_example :
    AttemptsBounded
      (create_for_invoice
        (λ amount currency. ok (record { provider_payment_id = "pi_2"; status = "pending" }))
        10
        7
        5025
        "USD"
        open_db).1
create_for_invoice-AttemptsBounded_example =
    create_for_invoice-AttemptsBounded
      (λ amount currency. ok (record { provider_payment_id = "pi_2"; status = "pending" })) 10 7
      5025 "USD" open_db open-AttemptsBounded

abbrev last_attempt : PaymentAttempt
last_attempt = record attempt { attempt_number = 2 }

abbrev last_db : Database
last_db = record open_db { attempts = (11, last_attempt) ∷ [] }
