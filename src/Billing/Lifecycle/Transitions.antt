-- ===== src/Billing/Lifecycle/Transitions.antt =====
-- The transitions of invoice-lifecycle.service.ts, branch by branch.
use meterplex.Prelude.{
  ℕ, String, ◌+◌, ◌*◌, ◌≡◌, ◌≢◌, ◌⊎◌, inl, inr, Option, none, some, [], ◌∷◌, ◌++◌, arith, ◌==◌,
  Bool-cases, Option-cases,
}
use meterplex.Prelude.Table
use meterplex.Calendar.{Date, day_ms, get_time}
use meterplex.Billing.State.{InvoiceStatus, Invoice, LedgerEntry, EntryType, Database}
use meterplex.Billing.Monad.{ok, err, not_found, invalid_transition}
use meterplex.Billing.Numbers.{upsert_sequence, next_value, format_number}
use meterplex.Billing.Lifecycle.{finalize, mark_paid, void_invoice, payment_due_days}

module _ (id tenant : ℕ) (now : Date) (db : Database) where
  abbrev pub finalized_row : Invoice → Invoice
  finalized_row i = record i {
    status = InvoiceStatus.finalized;
    invoice_number = some (format_number now.year (next_value now.year db.sequences));
    due_date = some (get_time now + payment_due_days * day_ms);
    finalized_at = some (get_time now);
  }

  abbrev pub charge_for : Invoice → LedgerEntry
  charge_for i = record {
    tenant_id = tenant;
    invoice_id = id;
    type = EntryType.charge;
    debit = i.total;
    credit = 0;
    currency = i.currency;
    external_reference = none;
  }

  -- Finalizing a draft of the tenant numbers it, sets its due date and charges its total.
  pub finalize_draft :
      (inv : Invoice)
      → Table.lookup id db.invoices ≡ some inv
      → inv.tenant_id ≡ tenant
      → inv.status ≡ InvoiceStatus.draft
      → finalize id tenant now db ≡ (
        ok tt,
        record db {
          invoices = Table.update id finalized_row db.invoices;
          ledger = db.ledger ++ charge_for inv ∷ [];
          sequences = upsert_sequence now.year db.sequences;
        },
      )
  unfolding finalize
  finalize_draft inv row own is_new = ground arith

  pub finalize_other :
      (inv : Invoice)
      → Table.lookup id db.invoices ≡ some inv
      → inv.tenant_id ≡ tenant
      → inv.status ≢ InvoiceStatus.draft
      → finalize id tenant now db
        ≡ (err (invalid_transition inv.status InvoiceStatus.finalized), db)
  unfolding finalize
  finalize_other inv row own old = ground arith

  abbrev pub paid_row : Invoice → Invoice
  paid_row i = record i { status = InvoiceStatus.paid; paid_at = some (get_time now) }

  abbrev pub payment_for : Option String → Invoice → LedgerEntry
  payment_for reference i = record {
    tenant_id = tenant;
    invoice_id = id;
    type = EntryType.payment;
    debit = 0;
    credit = i.total;
    currency = i.currency;
    external_reference = reference;
  }

  -- Paying a finalized invoice of the tenant marks it and credits its total.
  pub mark_paid_finalized :
      (reference : Option String) (inv : Invoice)
      → Table.lookup id db.invoices ≡ some inv
      → inv.tenant_id ≡ tenant
      → inv.status ≡ InvoiceStatus.finalized
      → mark_paid id tenant reference now db ≡ (
        ok tt,
        record db {
          invoices = Table.update id paid_row db.invoices;
          ledger = db.ledger ++ payment_for reference inv ∷ [];
        },
      )
  unfolding mark_paid
  mark_paid_finalized reference inv row own open_now = ground arith

  pub mark_paid_other :
      (reference : Option String) (inv : Invoice)
      → Table.lookup id db.invoices ≡ some inv
      → inv.tenant_id ≡ tenant
      → inv.status ≢ InvoiceStatus.finalized
      → mark_paid id tenant reference now db
        ≡ (err (invalid_transition inv.status InvoiceStatus.paid), db)
  unfolding mark_paid
  mark_paid_other reference inv row own other = ground arith

  abbrev pub voided_row : Invoice → Invoice
  voided_row i = record i { status = InvoiceStatus.void; voided_at = some (get_time now) }

  abbrev pub reversal_for : Invoice → LedgerEntry
  reversal_for i = record {
    tenant_id = tenant;
    invoice_id = id;
    type = EntryType.credit_note;
    debit = 0;
    credit = i.total;
    currency = i.currency;
    external_reference = none;
  }

  -- A draft is voided without an entry.
  pub void_draft :
      (inv : Invoice)
      → Table.lookup id db.invoices ≡ some inv
      → inv.tenant_id ≡ tenant
      → inv.status ≡ InvoiceStatus.draft
      → void_invoice id tenant now db
        ≡ (ok tt, record db { invoices = Table.update id voided_row db.invoices })
  unfolding void_invoice
  void_draft inv row own is_new = ground arith

  -- Voiding a finalized invoice reverses its charge.
  pub void_finalized :
      (inv : Invoice)
      → Table.lookup id db.invoices ≡ some inv
      → inv.tenant_id ≡ tenant
      → inv.status ≡ InvoiceStatus.finalized
      → void_invoice id tenant now db ≡ (
        ok tt,
        record db {
          invoices = Table.update id voided_row db.invoices;
          ledger = db.ledger ++ reversal_for inv ∷ [];
        },
      )
  unfolding void_invoice
  void_finalized inv row own open_now = ground arith

  pub void_other :
      (inv : Invoice)
      → Table.lookup id db.invoices ≡ some inv
      → inv.tenant_id ≡ tenant
      → inv.status ≢ InvoiceStatus.draft
      → inv.status ≢ InvoiceStatus.finalized
      → void_invoice id tenant now db ≡ (err (invalid_transition inv.status InvoiceStatus.void), db)
  unfolding void_invoice
  void_other inv row own not_draft not_finalized = ground arith

  -- An invoice that is not there, or belongs to another tenant.
  abbrev pub NoAccess : Type 0
  NoAccess =
      (Table.lookup id db.invoices ≡ none)
      ⊎ ((inv : Invoice) × (Table.lookup id db.invoices ≡ some inv) × (inv.tenant_id ≢ tenant))

  pub access_cases :
      NoAccess
      ⊎ ((inv : Invoice) × (Table.lookup id db.invoices ≡ some inv) × (inv.tenant_id ≡ tenant))
  access_cases = elim (Option-cases (Table.lookup id db.invoices)) [
    | inl missing ↦ inl (inl missing)
    | inr (inv, row) ↦ elim (Bool-cases (inv.tenant_id == tenant)) [
      | inl own ↦ inr (inv, row, ground arith)
      | inr foreign ↦ inl (inr (inv, row, ground arith))
    ]
  ]

  pub finalize_no_access : NoAccess → finalize id tenant now db ≡ (err not_found, db)
  unfolding finalize
  finalize_no_access (inl missing) = ground arith
  finalize_no_access (inr (inv, row, foreign)) = ground arith

  pub mark_paid_no_access :
      (reference : Option String)
      → NoAccess
      → mark_paid id tenant reference now db ≡ (err not_found, db)
  unfolding mark_paid
  mark_paid_no_access reference (inl missing) = ground arith
  mark_paid_no_access reference (inr (inv, row, foreign)) = ground arith

  pub void_no_access : NoAccess → void_invoice id tenant now db ≡ (err not_found, db)
  unfolding void_invoice
  void_no_access (inl missing) = ground arith
  void_no_access (inr (inv, row, foreign)) = ground arith
