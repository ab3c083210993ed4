-- ===== src/Billing/Lifecycle.antt =====
-- src/modules/invoices/invoice-lifecycle.service.ts: the transitions of an invoice, each with its
-- entry in the ledger. `now` is what `new Date()` gives in the call.
use meterplex.Prelude.{
  ℕ, ◌+◌, ◌*◌, String, Bool, true, false, not, ◌&&◌, Option, none, some, List, [], ◌∷◌, ◌++◌, ◌==◌,
  if◌then◌else◌,
}
use meterplex.Prelude.Table
use meterplex.Calendar.{Date, day_ms, get_time}
use meterplex.Billing.State.{InvoiceStatus, Invoice, LedgerEntry, EntryType, Database}
use meterplex.Billing.Monad.{
  Exec, not_found, invalid_transition, record_not_found, pure, throw, gets, or_throw, modify,
  throw_if, transaction, ◌>>=◌, ◌>>◌,
}
use meterplex.Billing.Numbers.{generate_next}
pub mod Ledger
pub mod Transitions
pub mod Invariant

abbrev pub payment_due_days : ℕ
payment_due_days = 30

abbrev pub is_draft : InvoiceStatus → Bool
is_draft InvoiceStatus.draft = true
is_draft InvoiceStatus.finalized = false
is_draft InvoiceStatus.paid = false
is_draft InvoiceStatus.void = false

abbrev pub is_finalized : InvoiceStatus → Bool
is_finalized InvoiceStatus.finalized = true
is_finalized InvoiceStatus.draft = false
is_finalized InvoiceStatus.paid = false
is_finalized InvoiceStatus.void = false

-- `findFirst({ where: { id, tenantId } })`, by the primary key and the tenant
unfoldable pub select_invoice : ℕ → ℕ → Database → Option Invoice
unfolding Table.lookup
select_invoice invoice_id tenant_id db = elim (Table.lookup invoice_id db.invoices) [
  | none ↦ none
  | some inv ↦ if inv.tenant_id == tenant_id then some inv else none
]

unfoldable pub find_invoice_for_tenant : ℕ → ℕ → Exec Invoice
unfolding select_invoice
find_invoice_for_tenant invoice_id tenant_id = do
  found ← gets (select_invoice invoice_id tenant_id)
  or_throw found not_found

-- `tx.invoice.update`, which fails on a missing row
unfoldable pub update_invoice : ℕ → (Invoice → Invoice) → Exec (Unit {0})
unfolding Table.lookup Table.update
update_invoice id f = do
  row ← gets (λ db. Table.lookup id db.invoices)
  or_throw row record_not_found
  modify (λ db. record db { invoices = Table.update id f db.invoices })

-- `tx.billingLedgerEntry.create`
unfoldable pub create_entry : LedgerEntry → Exec (Unit {0})
create_entry e = modify (λ db. record db { ledger = db.ledger ++ e ∷ [] })

unfoldable pub finalize : ℕ → ℕ → Date → Exec (Unit {0})
unfolding find_invoice_for_tenant update_invoice create_entry generate_next get_time
finalize invoice_id tenant_id now = do
  invoice ← find_invoice_for_tenant invoice_id tenant_id
  throw_if (not (is_draft invoice.status))
      (invalid_transition invoice.status InvoiceStatus.finalized)
  invoice_number ← generate_next now
  transaction (do
    update_invoice invoice_id (λ i. record i {
      status = InvoiceStatus.finalized;
      invoice_number = some invoice_number;
      due_date = some (get_time now + payment_due_days * day_ms);
      finalized_at = some (get_time now);
    })
    create_entry (record {
      tenant_id = tenant_id;
      invoice_id = invoice_id;
      type = EntryType.charge;
      debit = invoice.total;
      credit = 0;
      currency = invoice.currency;
      external_reference = none;
    }))

unfoldable pub mark_paid : ℕ → ℕ → Option String → Date → Exec (Unit {0})
unfolding find_invoice_for_tenant update_invoice create_entry get_time
mark_paid invoice_id tenant_id external_reference now = do
  invoice ← find_invoice_for_tenant invoice_id tenant_id
  throw_if (not (is_finalized invoice.status))
      (invalid_transition invoice.status InvoiceStatus.paid)
  transaction (do
    update_invoice invoice_id
        (λ i. record i { status = InvoiceStatus.paid; paid_at = some (get_time now) })
    create_entry (record {
      tenant_id = tenant_id;
      invoice_id = invoice_id;
      type = EntryType.payment;
      debit = 0;
      credit = invoice.total;
      currency = invoice.currency;
      external_reference = external_reference;
    }))

-- `void`: the charge is reversed if the invoice was finalized
unfoldable pub void_invoice : ℕ → ℕ → Date → Exec (Unit {0})
unfolding find_invoice_for_tenant update_invoice create_entry get_time
void_invoice invoice_id tenant_id now = do
  invoice ← find_invoice_for_tenant invoice_id tenant_id
  throw_if (not (is_draft invoice.status) && not (is_finalized invoice.status))
      (invalid_transition invoice.status InvoiceStatus.void)
  transaction (do
    update_invoice invoice_id
        (λ i. record i { status = InvoiceStatus.void; voided_at = some (get_time now) })
    if is_finalized invoice.status
        then create_entry (record {
          tenant_id = tenant_id;
          invoice_id = invoice_id;
          type = EntryType.credit_note;
          debit = 0;
          credit = invoice.total;
          currency = invoice.currency;
          external_reference = none;
        })
        else pure tt)
