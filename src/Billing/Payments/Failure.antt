-- ===== src/Billing/Payments/Failure.antt =====
-- The branches of payment-failure.handler.ts.
use meterplex.Prelude.{ℕ, ◌+◌, ◌≤◌, ◌<◌, ◌≡◌, refl, Option, none, some, get_or, arith, ==_refl}
use meterplex.Prelude.Table
use meterplex.Calendar.{Date, get_time}
use meterplex.Billing.State.{
  SubscriptionStatus, AttemptStatus, Invoice, PaymentAttempt, Subscription, Database,
}
use meterplex.Billing.Monad.{ok}
use meterplex.Billing.Lifecycle.Ledger.{IsBalanced}
use meterplex.Billing.Payments.{
  WebhookEvent, handle_failure, fail_attempt, find_attempt, retry_delay,
}
use meterplex.Billing.Payments.Success.{SameBooks, SameBooks-IsBalanced}

module _ (e : WebhookEvent) (now : Date) (db : Database) (k : ℕ) (a : PaymentAttempt)
    (inv : Invoice) where
  -- What a failure writes into the row of an attempt.
  abbrev pub failed_row : PaymentAttempt → PaymentAttempt
  failed_row t = record t {
    status = AttemptStatus.failed;
    failure_reason = some (get_or e.failure_reason "Unknown failure");
  }

  -- The same, with the time of the next try.
  abbrev pub retried_row : PaymentAttempt → PaymentAttempt
  retried_row t = record (failed_row t) {
    next_retry_at = some (get_time now + retry_delay t.attempt_number);
  }

  module _ (found : find_attempt e.provider_payment_id db ≡ some (k, a))
      (here : Table.lookup k db.attempts ≡ some a)
      (row : Table.lookup a.invoice_id db.invoices ≡ some inv) where
    failed_here : Table.lookup k (Table.update k failed_row db.attempts) ≡ some (failed_row a)
    failed_here = ground (arith, Table.lookup-update k k failed_row db.attempts)

    abbrev set_retry : PaymentAttempt → PaymentAttempt
    set_retry t = record t { next_retry_at = some (get_time now + retry_delay a.attempt_number) }

    retry_step :
        a.attempt_number < 2
        → handle_failure e now db ≡ (
          ok tt,
          record db { attempts = Table.update k set_retry (Table.update k failed_row db.attempts) },
        )
    unfolding handle_failure fail_attempt
    retry_step early = ground (arith, failed_here)

    -- The failure of a stored attempt with number 0 or 1, whose invoice is there, succeeds: the
    -- attempt has failed and has a time for the next try, after the delay of its number, and the
    -- subscriptions are left alone.
    pub handle_failure_retry :
        a.attempt_number < 2
        → ((handle_failure e now db).0 ≡ ok tt)
          × (Table.lookup k (handle_failure e now db).1.attempts ≡ some (retried_row a))
          × ((handle_failure e now db).1.subscriptions ≡ db.subscriptions)
    handle_failure_retry early = rw (retry_step early) (
      refl,
      rw
          (
            Table.lookup-update k k set_retry (Table.update k failed_row db.attempts),
            ==_refl k,
            failed_here,
          )
          refl,
      refl,
    )

    -- The failure of a stored attempt with number 2 or more, whose invoice and subscription are
    -- there, marks the attempt as failed and the subscription as past due, and sets no retry.
    pub handle_failure_last :
        (s : Subscription)
        → Table.lookup inv.subscription_id db.subscriptions ≡ some s
        → 2 ≤ a.attempt_number
        → handle_failure e now db ≡ (
          ok tt,
          record db {
            attempts = Table.update k failed_row db.attempts;
            subscriptions =
                Table.update inv.subscription_id
                  (λ t. record t { status = SubscriptionStatus.past_due })
                  db.subscriptions;
          },
        )
    unfolding handle_failure fail_attempt
    handle_failure_last s sub late = ground arith

-- A failed payment leaves the invoices and the ledger as they are.
books-fail :
    (e : WebhookEvent) (now : Date) (found : Option (ℕ × PaymentAttempt)) (db : Database)
    → SameBooks (fail_attempt e now found db).1 db
unfolding fail_attempt
books-fail e now none db = (refl, refl, refl)
books-fail e now (some (id, a)) db = ground arith

pub handle_failure-IsBalanced :
    (e : WebhookEvent) (now : Date) (db : Database)
    → IsBalanced db
    → IsBalanced (handle_failure e now db).1
unfolding handle_failure
handle_failure-IsBalanced e now db b =
    SameBooks-IsBalanced (handle_failure e now db).1 db
      (books-fail e now (find_attempt e.provider_payment_id db) db) b
