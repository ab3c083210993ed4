-- ===== src/Billing/Lifecycle/Invariant.antt =====
-- The books and the transitions of invoice-lifecycle.service.ts.
use meterplex.Prelude.{ℕ, String, ◌≡◌, refl, ◌≢◌, ◌⊎◌, inl, inr, Option, some, arith}
use meterplex.Prelude.Table
use meterplex.Calendar.{Date}
use meterplex.Billing.State.{InvoiceStatus, Invoice, Database}
use meterplex.Billing.Lifecycle.{finalize, mark_paid, void_invoice}
use meterplex.Billing.Lifecycle.Ledger.{
  Settled, IsBalanced, debits, credits, post-Books, update-Books,
}
use meterplex.Billing.Lifecycle.Transitions.{
  finalized_row, charge_for, paid_row, payment_for, voided_row, reversal_for, access_cases,
  finalize_draft, finalize_other, finalize_no_access, mark_paid_finalized, mark_paid_other,
  mark_paid_no_access, void_draft, void_finalized, void_other, void_no_access,
}

pub status_cases :
    (s : InvoiceStatus)
    → (s ≡ InvoiceStatus.draft)
      ⊎ (s ≡ InvoiceStatus.finalized)
      ⊎ ((s ≢ InvoiceStatus.draft) × (s ≢ InvoiceStatus.finalized))
status_cases InvoiceStatus.draft = inl refl
status_cases InvoiceStatus.finalized = inr (inl refl)
status_cases InvoiceStatus.paid = inr (inr (cc, cc))
status_cases InvoiceStatus.void = inr (inr (cc, cc))

module _ (id tenant : ℕ) (now : Date) (db : Database) (b : IsBalanced db) where
  -- The books of the row, at the status that it has.
  at_status :
      (inv : Invoice) (s : InvoiceStatus)
      → Table.lookup id db.invoices ≡ some inv
      → inv.status ≡ s
      → Settled s inv.total (debits id db.ledger) (credits id db.ledger)
  at_status inv s row e = rw e at (b.settled id inv row)

  -- Balanced books stay balanced when an invoice is finalized, or the call is refused.
  pub finalize-IsBalanced : IsBalanced (finalize id tenant now db).1
  finalize-IsBalanced = elim (access_cases id tenant now db) [
    | inl denied ↦ rw (finalize_no_access id tenant now db denied) b
    | inr (inv, row, own) ↦ elim (status_cases inv.status) [
      | inl new ↦
          let (d, c) = at_status inv InvoiceStatus.draft row new in
          rw (finalize_draft id tenant now db inv row own new) (
            post-Books db.invoices db.ledger db.next_id b id inv (finalized_row id tenant now db)
              (charge_for id tenant now db inv) row refl (omega (arith, d), omega (arith, c)))
      | inr old ↦ rw (finalize_other id tenant now db inv row own (not_draft inv old)) b
    ]
  ]
    where
      not_draft :
          (inv : Invoice)
          → ((inv.status ≡ InvoiceStatus.finalized)
              ⊎ ((inv.status ≢ InvoiceStatus.draft) × (inv.status ≢ InvoiceStatus.finalized)))
          → inv.status ≢ InvoiceStatus.draft
      not_draft inv (inl e) = λ d. cc
      not_draft inv (inr (n, _)) = n

  -- Balanced books stay balanced when an invoice is marked as paid, or the call is refused.
  pub mark_paid-IsBalanced :
      (reference : Option String) → IsBalanced (mark_paid id tenant reference now db).1
  mark_paid-IsBalanced reference = elim (access_cases id tenant now db) [
    | inl denied ↦ rw (mark_paid_no_access id tenant now db reference denied) b
    | inr (inv, row, own) ↦ elim (status_cases inv.status) [
      | inl new ↦ rw (mark_paid_other id tenant now db reference inv row own (λ e. cc (new, e))) b
      | inr (inl open_now) ↦
          let (d, c) = at_status inv InvoiceStatus.finalized row open_now in
          rw (mark_paid_finalized id tenant now db reference inv row own open_now) (
            post-Books db.invoices db.ledger db.next_id b id inv (paid_row id tenant now db)
              (payment_for id tenant now db reference inv) row refl
              (omega (arith, d), omega (arith, c)))
      | inr (inr (_, closed)) ↦ rw (mark_paid_other id tenant now db reference inv row own closed) b
    ]
  ]

  -- Balanced books stay balanced when an invoice is voided, as a draft or after it was finalized,
  -- or the call is refused.
  pub void-IsBalanced : IsBalanced (void_invoice id tenant now db).1
  void-IsBalanced = elim (access_cases id tenant now db) [
    | inl denied ↦ rw (void_no_access id tenant now db denied) b
    | inr (inv, row, own) ↦ elim (status_cases inv.status) [
      | inl new ↦
          let (d, c) = at_status inv InvoiceStatus.draft row new in
          rw (void_draft id tenant now db inv row own new) (
            update-Books db.invoices db.ledger db.next_id b id inv (voided_row id tenant now db) row
              (omega (arith, d, c)))
      | inr (inl open_now) ↦
          let (d, c) = at_status inv InvoiceStatus.finalized row open_now in
          rw (void_finalized id tenant now db inv row own open_now) (
            post-Books db.invoices db.ledger db.next_id b id inv (voided_row id tenant now db)
              (reversal_for id tenant now db inv) row refl (omega (arith, d, c)))
      | inr (inr (not_draft, not_finalized)) ↦
          rw (void_other id tenant now db inv row own not_draft not_finalized) b
    ]
  ]
