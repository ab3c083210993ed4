-- ===== src/Reconciliation/Payments.antt =====
-- checkSubscriptionPaymentConsistency: four queries, and an issue for each of their rows. `after_update`
-- says whether an attempt was created after the last update of a subscription, times that the
-- database of the model does not hold.
use meterplex.Prelude.{
  ℕ, ◌+◌, Bool, true, false, not, ◌&&◌, ◌||◌, String, Option, none, some, List, [], ◌∷◌, ◌++◌, ◌==◌,
  leb, ltb, if◌then◌else◌, str_eq, get_or,
}
use meterplex.Prelude.Table
use meterplex.Prelude.Table.{Table}
use meterplex.Text.{Text, codes, show}
use meterplex.Calendar.{Date, get_time}
use meterplex.Billing.State.{
  Invoice, InvoiceStatus, LedgerEntry, EntryType, Subscription, SubscriptionStatus, AttemptStatus,
  Database,
}
use meterplex.Reconciliation.State.{
  Issue, IssueStatus, Category, Exec, Tally, minus, ◌⊕◌, report, for_each,
}
use meterplex.Reconciliation.Usage.{is_active}

abbrev pub is_finalized : InvoiceStatus → Bool
is_finalized InvoiceStatus.finalized = true
is_finalized other = false

-- `status IN ('FINALIZED', 'PAID')`
abbrev pub is_charged : InvoiceStatus → Bool
is_charged InvoiceStatus.finalized = true
is_charged InvoiceStatus.paid = true
is_charged other = false

-- `due_date < now`, which no row without a due date meets
abbrev pub is_overdue : Option ℕ → ℕ → Bool
is_overdue none now = false
is_overdue (some due) now = ltb due now

abbrev pub status_of : Option Subscription → (SubscriptionStatus → Bool) → Bool
status_of none p = false
status_of (some sub) p = p sub.status

-- 1. Invoices of a running subscription that are overdue
unfoldable pub overdue_invoices : ℕ → Database → Table Invoice
unfolding Table.lookup Table.find_many
overdue_invoices now db =
    Table.find_many
      (λ id i.
        is_finalized i.status
        && is_overdue i.due_date now
        && status_of (Table.lookup i.subscription_id db.subscriptions) is_active)
      db.invoices

abbrev pub is_past_due : SubscriptionStatus → Bool
is_past_due SubscriptionStatus.past_due = true
is_past_due other = false

abbrev pub is_succeeded : AttemptStatus → Bool
is_succeeded AttemptStatus.succeeded = true
is_succeeded other = false

-- A row of the second query: the subscription, its tenant and the payment
abbrev pub PaidRow : Type 0
PaidRow = ℕ × ℕ × String

abbrev pub same_paid : PaidRow → PaidRow → Bool
same_paid (s, t, p) (s', t', p') = s == s' && t == t' && str_eq p p'

unfoldable pub mem_paid : PaidRow → List PaidRow → Bool
mem_paid r [] = false
mem_paid r (x ∷ xs) = same_paid x r || mem_paid r xs

-- `DISTINCT`
unfoldable pub distinct : List PaidRow → List PaidRow
unfolding mem_paid
distinct [] = []
distinct (r ∷ rows) = let rest = distinct rows in if mem_paid r rest then rest else r ∷ rest

-- `JOIN`: a list for each row, one behind the other
unfoldable pub flat_map {ℓ κ} : {A : Type ℓ} {B : Type κ} → (A → List B) → List A → List B
flat_map f [] = []
flat_map f (x ∷ xs) = f x ++ flat_map f xs

module _ (after_update : ℕ → ℕ → Bool) (db : Database) where
  abbrev pub attempts_of : ℕ → ℕ → Subscription → List PaidRow
  attempts_of invoice id sub =
      flat_map
        (λ (a, attempt).
          if attempt.invoice_id == invoice && is_succeeded attempt.status && after_update a id
          then (id, sub.tenant_id, attempt.provider_payment_id) ∷ []
          else [])
        db.attempts

  abbrev pub payments_of : ℕ × Subscription → List PaidRow
  payments_of (id, sub) =
      if is_past_due sub.status
      then flat_map (λ (i, inv). if inv.subscription_id == id then attempts_of i id sub else [])
          db.invoices
      else []

  -- 2. Subscriptions past due with a payment that succeeded
  unfoldable pub past_due_with_payments : List PaidRow
  unfolding distinct flat_map
  past_due_with_payments = distinct (flat_map payments_of db.subscriptions)

abbrev pub is_cancelled : SubscriptionStatus → Bool
is_cancelled SubscriptionStatus.cancelled = true
is_cancelled other = false

abbrev pub is_found {ℓ} : {A : Type ℓ} → Option A → Bool
is_found none = false
is_found (some a) = true

-- `EXISTS` in the third query
unfoldable pub has_final_invoice : ℕ → Date → Database → Bool
unfolding Table.find_first get_time
has_final_invoice id cancelled_at db = is_found (
    Table.find_first
      (λ k i.
        i.subscription_id == id
        && leb (get_time i.period_end) (get_time cancelled_at)
        && is_charged i.status)
      db.invoices)

abbrev pub lacks_invoice : Option Date → ℕ → Database → Bool
lacks_invoice none id db = false
lacks_invoice (some at) id db = not (has_final_invoice id at db)

-- 3. Cancelled subscriptions without a final invoice
unfoldable pub cancelled_no_invoice : Database → Table Subscription
unfolding Table.find_many has_final_invoice
cancelled_no_invoice db =
    Table.find_many (λ id s. is_cancelled s.status && lacks_invoice s.cancelled_at id db)
      db.subscriptions

abbrev pub is_charge : EntryType → Bool
is_charge EntryType.charge = true
is_charge other = false

-- `SUM(ble.debit)` over the charges of an invoice
unfoldable pub charged : ℕ → List LedgerEntry → ℕ
charged id [] = 0
charged id (e ∷ l) = (if e.invoice_id == id && is_charge e.type then e.debit else 0) + charged id l

-- 4. Invoices whose charges differ from their total
unfoldable pub ledger_mismatches : Database → Table Invoice
unfolding Table.find_many charged
ledger_mismatches db =
    Table.find_many
      (λ id i.
        is_charged i.status && is_found i.invoice_number && not (i.total == charged id db.ledger))
      db.invoices

module _ (run : ℕ) where
  abbrev pub payment_issue : ℕ → Text → ℕ → ℕ → Issue
  payment_issue tenant key expected actual = record {
    run_id = run;
    category = Category.subscription_payment;
    tenant_id = tenant;
    feature_lookup_key = key;
    period_key = codes "n/a";
    expected = expected;
    actual = actual;
    difference = minus expected actual;
    status = IssueStatus.opened;
    notes = none;
  }

  abbrev pub invoice_key : Invoice → Text
  invoice_key i = codes "invoice:" ++ get_or i.invoice_number (codes "null")

  abbrev pub subscription_key : ℕ → Text
  subscription_key id = codes "subscription:" ++ show id

  unfoldable pub check_payments : (ℕ → ℕ → Bool) → ℕ → Database → Exec Tally
  unfolding overdue_invoices past_due_with_payments cancelled_no_invoice ledger_mismatches charged
      minus show report for_each
  check_payments after_update now db =
      for_each (λ (id, i). report (payment_issue i.tenant_id (invoice_key i) i.total 0))
        (overdue_invoices now db)
      ⊕ for_each (λ (s, tenant, p). report (payment_issue tenant (subscription_key s) 0 0))
          (past_due_with_payments after_update db)
      ⊕ for_each (λ (id, s). report (payment_issue s.tenant_id (subscription_key id) 1 0))
          (cancelled_no_invoice db)
      ⊕ for_each
          (λ (id, i).
            report (payment_issue i.tenant_id (invoice_key i) i.total (charged id db.ledger)))
          (ledger_mismatches db)
