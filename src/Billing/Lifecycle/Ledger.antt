-- ===== src/Billing/Lifecycle/Ledger.antt =====
-- The books: entries of the ledger against the statuses of the invoices.
use meterplex.Prelude.{
  ℕ, ◌+◌, ◌≤◌, ◌≡◌, ◌≢◌, none, some, List, [], ◌∷◌, ◌++◌, arith, ◌==◌, if◌then◌else◌, ==_refl, inl,
  inr,
}
use meterplex.Prelude.Table
use meterplex.Prelude.Table.{Table, KeysBelow, row_of_update, row_of_create, lookup_next}
use meterplex.Billing.State.{InvoiceStatus, Invoice, LedgerEntry, Database}

-- What was charged to an invoice, and what was paid or credited on it.
unfoldable pub debits : ℕ → List LedgerEntry → ℕ
debits id [] = 0
debits id (e ∷ l) = (if e.invoice_id == id then e.debit else 0) + debits id l

unfoldable pub credits : ℕ → List LedgerEntry → ℕ
credits id [] = 0
credits id (e ∷ l) = (if e.invoice_id == id then e.credit else 0) + credits id l

-- The books of one invoice with the given total, debits and credits.
abbrev pub Settled : InvoiceStatus → ℕ → ℕ → ℕ → Type 0
Settled InvoiceStatus.draft total debit credit = (debit ≡ 0) × (credit ≡ 0)
Settled InvoiceStatus.finalized total debit credit = (debit ≡ total) × (credit ≡ 0)
Settled InvoiceStatus.paid total debit credit = (debit ≡ total) × (credit ≡ total)
Settled InvoiceStatus.void total debit credit = debit ≡ credit

-- The books of a database with these invoices and entries, where `n` is the next free id.
pub record Books (invoices : Table Invoice) (ledger : List LedgerEntry) (n : ℕ) : Type 0 where
  pub keys : KeysBelow n invoices
  pub settled :
      (id : ℕ) (inv : Invoice)
      → Table.lookup id invoices ≡ some inv
      → Settled inv.status inv.total (debits id ledger) (credits id ledger)
  -- no entry names an invoice that is still to come
  pub known : (id : ℕ) → n ≤ id → (debits id ledger ≡ 0) × (credits id ledger ≡ 0)

abbrev pub IsBalanced : Database → Type 0
IsBalanced db = Books db.invoices db.ledger db.next_id

debits-append :
    (id : ℕ) (l : List LedgerEntry) (e : LedgerEntry)
    → debits id (l ++ e ∷ []) ≡ debits id l + (if e.invoice_id == id then e.debit else 0)
unfolding debits
debits-append id [] e = omega arith
debits-append id (x ∷ l) e = omega (arith, debits-append id l e)

credits-append :
    (id : ℕ) (l : List LedgerEntry) (e : LedgerEntry)
    → credits id (l ++ e ∷ []) ≡ credits id l + (if e.invoice_id == id then e.credit else 0)
unfolding credits
credits-append id [] e = omega arith
credits-append id (x ∷ l) e = omega (arith, credits-append id l e)

-- Entries of one invoice leave the sums of the others alone.
sums_other :
    (id k : ℕ) (l : List LedgerEntry) (e : LedgerEntry)
    → e.invoice_id ≡ id
    → k ≢ id
    → (debits k (l ++ e ∷ []) ≡ debits k l) × (credits k (l ++ e ∷ []) ≡ credits k l)
sums_other id k l e own ne =
    (ground (arith, debits-append k l e), ground (arith, credits-append k l e))

module _ (t : Table Invoice) (l : List LedgerEntry) (n : ℕ) (b : Books t l n) where
  -- One more entry for an invoice that is there, whose row is updated at the same time.
  pub post-Books :
      (id : ℕ) (inv : Invoice) (f : Invoice → Invoice) (e : LedgerEntry)
      → Table.lookup id t ≡ some inv
      → e.invoice_id ≡ id
      → Settled (f inv).status (f inv).total (debits id l + e.debit) (credits id l + e.credit)
      → Books (Table.update id f t) (l ++ e ∷ []) n
  post-Books id inv f e found own s = record {
    keys = λ k v h. elim (row_of_update id k f t inv v found h) [
      | inl (same, _) ↦ rw same (b.keys id inv found)
      | inr (_, old) ↦ b.keys k v old
    ];
    settled = λ k v h. elim (row_of_update id k f t inv v found h) [
      | inl (same, new) ↦ rw (same, new, debits-append, credits-append, own, ==_refl id) s
      | inr (other, old) ↦
          let (d, c) = sums_other id k l e own other in rw (d, c) (b.settled k v old)
    ];
    known = λ k h.
        let (d, c) = sums_other id k l e own (λ same. omega (arith, b.keys id inv found)) in
        rw (d, c) (b.known k h);
  }

  -- An update without an entry.
  pub update-Books :
      (id : ℕ) (inv : Invoice) (f : Invoice → Invoice)
      → Table.lookup id t ≡ some inv
      → Settled (f inv).status (f inv).total (debits id l) (credits id l)
      → Books (Table.update id f t) l n
  update-Books id inv f found s = record {
    keys = λ k v h. elim (row_of_update id k f t inv v found h) [
      | inl (same, _) ↦ rw same (b.keys id inv found)
      | inr (_, old) ↦ b.keys k v old
    ];
    settled = λ k v h. elim (row_of_update id k f t inv v found h) [
      | inl (same, new) ↦ rw (same, new) s
      | inr (_, old) ↦ b.settled k v old
    ];
    known = b.known;
  }

  -- A new draft under the next id.
  pub draft-Books :
      (inv : Invoice) → inv.status ≡ InvoiceStatus.draft → Books (Table.create n inv t) l (n + 1)
  draft-Books inv is_new = record {
    keys = λ k v h. elim (row_of_create n k t inv v free h) [
      | inl (same, _) ↦ omega arith
      | inr (_, old) ↦ omega (arith, b.keys k v old)
    ];
    settled = λ k v h. elim (row_of_create n k t inv v free h) [
      | inl (same, new) ↦ rw (same, new, is_new) (b.known n (omega arith))
      | inr (_, old) ↦ b.settled k v old
    ];
    known = λ k h. b.known k (omega arith);
  }
    where
      free : Table.lookup n t ≡ none
      free = lookup_next n t b.keys
