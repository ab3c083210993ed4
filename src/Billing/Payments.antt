-- ===== src/Billing/Payments.antt =====
-- src/modules/payments: the intents of payment-intent.service.ts, and the two event handlers.
-- Raw payloads are stored by the source and never read; they are left out.
use meterplex.Prelude.{
  ℕ, zero, suc, ◌+◌, ◌*◌, String, Bool, true, false, not, ◌&&◌, Option, none, some, List, [], ◌∷◌,
  ◌==◌, ltb, leb, str_eq, get_or, if◌then◌else◌, length,
}
use meterplex.Prelude.Table
use meterplex.Prelude.Table.{Table}
use meterplex.Calendar.{Date, day_ms, get_time}
use meterplex.Billing.State.{
  InvoiceStatus, SubscriptionStatus, AttemptStatus, EventType, WebhookStatus, Invoice,
  PaymentAttempt, WebhookRow, Subscription, Database,
}
use meterplex.Billing.Monad.{
  Exec, Result, ok, err, record_not_found, unique_violation, invoice_not_finalized,
  already_succeeded, max_retries_exceeded, pure, throw, gets, or_throw, modify, throw_if, catch,
  ◌>>=◌, ◌>>◌,
}
use meterplex.Billing.Lifecycle.{is_finalized, select_invoice, mark_paid}
use meterplex.Billing.Period.{advance_period, update_subscription}
pub mod Intents
pub mod Success
pub mod Failure

-- `WebhookEvent`, without the fields that nothing reads
pub record WebhookEvent : Type 0 where
  pub provider_event_id : String
  pub type : EventType
  pub provider_payment_id : String
  pub failure_reason : Option String

-- What `createPaymentIntent` gives. The status is the text that the provider reports.
pub record IntentResult : Type 0 where
  pub provider_payment_id : String
  pub status : String

abbrev pub max_retries : ℕ
max_retries = 3

abbrev pub max_attempts : ℕ
max_attempts = 3

abbrev pub is_paid : InvoiceStatus → Bool
is_paid InvoiceStatus.paid = true
is_paid InvoiceStatus.draft = false
is_paid InvoiceStatus.finalized = false
is_paid InvoiceStatus.void = false

abbrev pub is_succeeded : AttemptStatus → Bool
is_succeeded AttemptStatus.succeeded = true
is_succeeded AttemptStatus.pending = false
is_succeeded AttemptStatus.failed = false
is_succeeded AttemptStatus.cancelled = false
is_succeeded AttemptStatus.requires_action = false

abbrev pub is_failed : AttemptStatus → Bool
is_failed AttemptStatus.failed = true
is_failed AttemptStatus.pending = false
is_failed AttemptStatus.succeeded = false
is_failed AttemptStatus.cancelled = false
is_failed AttemptStatus.requires_action = false

unfoldable pub map_initial_status : String → AttemptStatus
map_initial_status s =
    if str_eq s "succeeded"
    then AttemptStatus.succeeded
    else if str_eq s "failed"
    then AttemptStatus.failed
    else if str_eq s "requires_action"
    then AttemptStatus.requires_action
    else AttemptStatus.pending

-- `paymentAttempt.findUnique({ where: { providerPaymentId } })`
unfoldable pub find_attempt : String → Database → Option (ℕ × PaymentAttempt)
unfolding Table.find_first
find_attempt payment_id db =
    Table.find_first (λ _ a. str_eq a.provider_payment_id payment_id) db.attempts

unfoldable pub update_attempt : ℕ → (PaymentAttempt → PaymentAttempt) → Exec (Unit {0})
unfolding Table.lookup Table.update
update_attempt id f = do
  row ← gets (λ db. Table.lookup id db.attempts)
  or_throw row record_not_found
  modify (λ db. record db { attempts = Table.update id f db.attempts })

-- `RETRY_DELAYS_MS[attemptNumber] ?? RETRY_DELAYS_MS[2]`
unfoldable pub retry_delay : ℕ → ℕ
retry_delay zero = 1 * day_ms
retry_delay (suc zero) = 3 * day_ms
retry_delay (suc (suc n)) = 7 * day_ms

-- `null` if the attempt is missing or has not failed
unfoldable pub retry_attempt : ℕ → Date → Option PaymentAttempt → Exec (Option ℕ)
unfolding update_attempt retry_delay get_time
retry_attempt id now none = pure none
retry_attempt id now (some failed) = if not (is_failed failed.status) then pure none else do
  let next_retry_at = get_time now + retry_delay failed.attempt_number
  update_attempt id (λ a. record a { next_retry_at = some next_retry_at })
  pure (some next_retry_at)

unfoldable pub schedule_retry : ℕ → Date → Exec (Option ℕ)
unfolding retry_attempt Table.lookup
schedule_retry id now = do
  failed ← gets (λ db. Table.lookup id db.attempts)
  retry_attempt id now failed

-- The attempts of an invoice, in the order in which they were created.
unfoldable pub attempts_of : ℕ → Database → Table PaymentAttempt
unfolding Table.find_many
attempts_of invoice_id db = Table.find_many (λ _ a. a.invoice_id == invoice_id) db.attempts

-- the id of the last row, for a search in descending order of creation
unfoldable pub last_key {ℓ} : {V : Type ℓ} → Table V → Option ℕ
last_key [] = none
last_key ((k, v) ∷ []) = some k
last_key ((k, v) ∷ (w ∷ t)) = last_key (w ∷ t)

abbrev finalized_or_none : Option Invoice → Option Invoice
finalized_or_none none = none
finalized_or_none (some inv) = if is_finalized inv.status then some inv else none

-- `intent` is what the provider's `createPaymentIntent` does for this amount and currency.
unfoldable pub create_for_invoice : (ℕ → String → Result IntentResult) → ℕ → ℕ → ℕ → String → Exec ℕ
unfolding select_invoice attempts_of Table.find_first Table.find_many last_key map_initial_status
    find_attempt
create_for_invoice intent invoice_id tenant_id amount currency = do
  row ← gets (λ db. finalized_or_none (select_invoice invoice_id tenant_id db))
  or_throw row invoice_not_finalized
  attempts ← gets (attempts_of invoice_id)
  throw_if (Table.is_found (Table.find_first (λ _ a. is_succeeded a.status) attempts))
      already_succeeded
  throw_if (leb max_retries (length attempts)) max_retries_exceeded
  result ← (λ db. (intent amount currency, db))
  let last_failed = last_key (Table.find_many (λ _ a. is_failed a.status) attempts)
  taken ← gets (find_attempt result.provider_payment_id)
  throw_if (Table.is_found taken) unique_violation
  id ← gets (λ db. db.next_id)
  modify (λ db. record db {
    attempts =
        Table.create id
          (record {
            invoice_id = invoice_id;
            tenant_id = tenant_id;
            provider_payment_id = result.provider_payment_id;
            status = map_initial_status result.status;
            amount = amount;
            currency = currency;
            attempt_number = length attempts;
            retry_of = last_failed;
            next_retry_at = none;
            failure_reason = none;
          })
          db.attempts;
    next_id = id + 1;
  })
  pure id

-- the `try` at the end of the success handler
unfoldable pub advance_subscription : ℕ → Exec (Unit {0})
advance_subscription subscription_id = do
  row ← gets (λ db. Table.lookup subscription_id db.subscriptions)
  elim row [
    | none ↦ pure tt
    | some s ↦ advance_period subscription_id s.period_end s.price.interval
  ]

-- the rest of the handler, for an attempt and its invoice
unfoldable pub settle : WebhookEvent → Date → ℕ → PaymentAttempt → Invoice → Exec (Unit {0})
unfolding update_attempt advance_subscription
settle event now id attempt invoice = if is_paid invoice.status then pure tt else do
  update_attempt id (λ a. record a { status = AttemptStatus.succeeded })
  mark_paid attempt.invoice_id attempt.tenant_id (some event.provider_payment_id) now
  catch (advance_subscription invoice.subscription_id) (pure tt)

-- `attempt.invoice` is there by the foreign key of an attempt.
unfoldable pub succeed_attempt : WebhookEvent → Date → Option (ℕ × PaymentAttempt) → Exec (Unit {0})
unfolding settle
succeed_attempt event now none = pure tt
succeed_attempt event now (some (id, attempt)) = do
  row ← gets (λ db. Table.lookup attempt.invoice_id db.invoices)
  invoice ← or_throw row record_not_found
  settle event now id attempt invoice

-- `PaymentSuccessHandler.handle`
unfoldable pub handle_success : WebhookEvent → Date → Exec (Unit {0})
unfolding succeed_attempt find_attempt
handle_success event now = do
  found ← gets (find_attempt event.provider_payment_id)
  succeed_attempt event now found

-- Retries remain, or the subscription is past due.
unfoldable pub retry_or_give_up : Bool → ℕ → Date → ℕ → Exec (Unit {0})
unfolding schedule_retry update_subscription
retry_or_give_up true id now subscription_id = do schedule_retry id now; pure tt
retry_or_give_up false id now subscription_id =
    update_subscription subscription_id (λ s. record s { status = SubscriptionStatus.past_due })

unfoldable pub fail_attempt : WebhookEvent → Date → Option (ℕ × PaymentAttempt) → Exec (Unit {0})
unfolding update_attempt retry_or_give_up
fail_attempt event now none = pure tt
fail_attempt event now (some (id, attempt)) = do
  row ← gets (λ db. Table.lookup attempt.invoice_id db.invoices)
  invoice ← or_throw row record_not_found
  update_attempt id (λ a. record a {
    status = AttemptStatus.failed;
    failure_reason = some (get_or event.failure_reason "Unknown failure");
  })
  retry_or_give_up (ltb (attempt.attempt_number + 1) max_attempts) id now invoice.subscription_id

-- `PaymentFailureHandler.handle`
unfoldable pub handle_failure : WebhookEvent → Date → Exec (Unit {0})
unfolding fail_attempt find_attempt
handle_failure event now = do
  found ← gets (find_attempt event.provider_payment_id)
  fail_attempt event now found
