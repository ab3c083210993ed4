-- ===== src/Reconciliation/Books.antt =====
-- The check of the ledger against the books that the billing keeps.
use meterplex.Prelude.{
  ℕ, Bool, true, false, not, ◌&&◌, ◌||◌, List, [], ◌∷◌, All, ◌≡◌, refl, arith, ◌==◌,
}
use meterplex.Prelude.Table.Keyed.{HasUniqueKeys, find_many-unfit}
use meterplex.Billing.State.{InvoiceStatus, LedgerEntry, Database}
use meterplex.Billing.Lifecycle.Ledger.{debits, credits, Settled, IsBalanced}
use meterplex.Reconciliation.Payments.{charged, is_charge, is_charged, is_found, ledger_mismatches}

-- An entry that is no charge has no debit.
abbrev pub is_plain : LedgerEntry → Bool
is_plain e = is_charge e.type || (e.debit == 0)

abbrev pub HasPlainEntries : List LedgerEntry → Type 0
HasPlainEntries l = All (λ e. is_plain e ≡ true) l

charged-debits : (id : ℕ) (l : List LedgerEntry) → HasPlainEntries l → charged id l ≡ debits id l
unfolding charged debits
charged-debits id [] h = refl
charged-debits id (e ∷ l) (p, h) = ground (arith, charged-debits id l h)

-- The books of a charged invoice hold its total.
Settled-total :
    (s : InvoiceStatus) (total debit credit : ℕ)
    → Settled s total debit credit
    → (is_charged s && not (total == debit)) ≡ false
Settled-total InvoiceStatus.draft total debit credit h = refl
Settled-total InvoiceStatus.finalized total debit credit h = ground arith
Settled-total InvoiceStatus.paid total debit credit h = ground arith
Settled-total InvoiceStatus.void total debit credit h = refl

no_mismatch :
    (s : InvoiceStatus) (numbered : Bool) (total debit charge : ℕ)
    → charge ≡ debit
    → (is_charged s && not (total == debit)) ≡ false
    → (is_charged s && numbered && not (total == charge)) ≡ false
no_mismatch s numbered total debit charge same h = ground arith

-- On balanced books the reconciliation finds no invoice whose charges differ from its total, if
-- invoices have their own ids and only charges have a debit.
pub balanced_no_mismatches :
    (db : Database)
    → IsBalanced db
    → HasUniqueKeys db.invoices
    → HasPlainEntries db.ledger
    → ledger_mismatches db ≡ []
unfolding ledger_mismatches
balanced_no_mismatches db books unique plain =
    find_many-unfit
      (λ id i.
        is_charged i.status && is_found i.invoice_number && not (i.total == charged id db.ledger))
      db.invoices unique
      (λ id i row.
        no_mismatch i.status (is_found i.invoice_number) i.total (debits id db.ledger)
          (charged id db.ledger) (charged-debits id db.ledger plain)
          (Settled-total i.status i.total (debits id db.ledger) (credits id db.ledger)
            (books.settled id i row)))
