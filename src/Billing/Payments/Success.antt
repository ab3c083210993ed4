-- ===== src/Billing/Payments/Success.antt =====
-- The branches of payment-success.handler.ts.
use meterplex.Prelude.{ℕ, ◌≡◌, ◌⊎◌, inl, inr, Option, none, some, [], ◌∷◌, ◌++◌, arith}
use meterplex.Prelude.Table
use meterplex.Prelude.Table.{Table, lookup-update, find_first_holds}
use meterplex.Calendar.{Date}
use meterplex.Billing.State.{
  InvoiceStatus, AttemptStatus, Invoice, PaymentAttempt, Subscription, Database,
}
use meterplex.Billing.Monad.{ok}
use meterplex.Billing.Lifecycle.{mark_paid}
use meterplex.Billing.Lifecycle.Ledger.{IsBalanced}
use meterplex.Billing.Lifecycle.Invariant.{mark_paid-IsBalanced}
use meterplex.Billing.Lifecycle.Transitions.{paid_row, payment_for}
use meterplex.Billing.Period.{advance_period}
use meterplex.Billing.Cron.Billed.{advanced}
use meterplex.Billing.Payments.{settle, WebhookEvent, succeed_attempt, handle_success, find_attempt}

-- The three parts of a database that the books are about.
abbrev pub SameBooks : Database → Database → Type 0
SameBooks db old =
    (db.invoices ≡ old.invoices) × (db.ledger ≡ old.ledger) × (db.next_id ≡ old.next_id)

pub SameBooks-IsBalanced : (db old : Database) → SameBooks db old → IsBalanced old → IsBalanced db
SameBooks-IsBalanced db old (i, l, n) b = rw (i, l, n) b

-- To the books the handler does nothing, or what `markPaid` does.
books-succeed :
    (e : WebhookEvent) (now : Date) (id : ℕ) (a : PaymentAttempt) (db : Database)
    → SameBooks (succeed_attempt e now (some (id, a)) db).1 db
      ⊎ SameBooks
          (succeed_attempt e now (some (id, a)) db).1
          (mark_paid a.invoice_id a.tenant_id (some e.provider_payment_id) now db).1
unfolding succeed_attempt settle mark_paid advance_period
books-succeed e now id a db = ground arith

succeed-IsBalanced :
    (e : WebhookEvent) (now : Date) (found : Option (ℕ × PaymentAttempt)) (db : Database)
    → IsBalanced db
    → IsBalanced (succeed_attempt e now found db).1
unfolding succeed_attempt
succeed-IsBalanced e now none db b = b
succeed-IsBalanced e now (some (id, a)) db b = elim (books-succeed e now id a db) [
  | inl same ↦ SameBooks-IsBalanced (succeed_attempt e now (some (id, a)) db).1 db same b
  | inr same ↦
      SameBooks-IsBalanced (succeed_attempt e now (some (id, a)) db).1
        (mark_paid a.invoice_id a.tenant_id (some e.provider_payment_id) now db).1 same
        (mark_paid-IsBalanced a.invoice_id a.tenant_id now db b (some e.provider_payment_id))
]

-- The books stay balanced when the success handler runs, whether it returns or throws.
pub handle_success-IsBalanced :
    (e : WebhookEvent) (now : Date) (db : Database)
    → IsBalanced db
    → IsBalanced (handle_success e now db).1
unfolding handle_success
handle_success-IsBalanced e now db b =
    succeed-IsBalanced e now (find_attempt e.provider_payment_id db) db b

module _ (e : WebhookEvent) (now : Date) (db : Database) (k : ℕ) (a : PaymentAttempt)
    (inv : Invoice) where
  -- A payment for a finalized invoice of the attempt's tenant, whose subscription s exists: the
  -- attempt succeeds, the invoice is paid, its total is credited with the reference of the
  -- payment, and the subscription moves on by one period from its current end.
  pub handle_success_finalized :
      (s : Subscription)
      → find_attempt e.provider_payment_id db ≡ some (k, a)
      → Table.lookup k db.attempts ≡ some a
      → Table.lookup a.invoice_id db.invoices ≡ some inv
      → inv.tenant_id ≡ a.tenant_id
      → inv.status ≡ InvoiceStatus.finalized
      → Table.lookup inv.subscription_id db.subscriptions ≡ some s
      → handle_success e now db ≡ (
        ok tt,
        record db {
          attempts =
              Table.update k (λ t. record t { status = AttemptStatus.succeeded }) db.attempts;
          invoices =
              Table.update a.invoice_id (paid_row a.invoice_id a.tenant_id now db) db.invoices;
          ledger =
              db.ledger
              ++ payment_for a.invoice_id a.tenant_id now db (some e.provider_payment_id) inv ∷ [];
          subscriptions = Table.update inv.subscription_id (advanced s) db.subscriptions;
        },
      )
  unfolding handle_success succeed_attempt settle mark_paid advance_period
  handle_success_finalized s found here row own open_now sub = ground arith

  -- A payment event whose attempt is for an invoice that is paid changes nothing.
  pub handle_success_paid :
      find_attempt e.provider_payment_id db ≡ some (k, a)
      → Table.lookup a.invoice_id db.invoices ≡ some inv
      → inv.status ≡ InvoiceStatus.paid
      → handle_success e now db ≡ (ok tt, db)
  unfolding handle_success succeed_attempt settle
  handle_success_paid found row paid = ground arith
