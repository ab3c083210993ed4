-- ===== src/Billing/Generation/Drafts.antt =====
-- The drafts of invoice-generation.service.ts as they are stored.
use meterplex.Prelude.{ℕ, ◌+◌, ◌≡◌, refl, none, some, List, ◌++◌, map, ==_refl}
use meterplex.Prelude.Table
use meterplex.Prelude.Table.{lookup-create, lookup_next}
use meterplex.Calendar.{Date}
use meterplex.Billing.State.{Invoice, Item, Subscription, Database}
use meterplex.Billing.Monad.{ok}
use meterplex.Billing.Overage.{calculate_proration, prorated_amount}
use meterplex.Billing.Lifecycle.Ledger.{IsBalanced, draft-Books}
use meterplex.Billing.Generation.{
  generate, generate_prorated, draft_of, line_items_for, sum_amounts, prorated_notes,
}

-- The database with one more draft.
abbrev pub with_draft : Invoice → List Item → Database → Database
with_draft inv items db = record db {
  invoices = Table.create db.next_id inv db.invoices;
  line_items = db.line_items ++ map (λ i. record { invoice_id = db.next_id; item = i }) items;
  next_id = db.next_id + 1;
}

module _ (sub : Subscription) where
  -- The part of the fee that a cancelled period costs.
  abbrev pub prorated_fee : Date → ℕ
  prorated_fee cancelled_at =
      prorated_amount sub.price.amount
        (calculate_proration sub.period_start sub.period_end cancelled_at)

module _ (id : ℕ) (sub : Subscription) (db : Database) where
  -- The invoice that `generate` stores.
  abbrev pub full_draft : Invoice
  full_draft =
      draft_of id sub sub.period_end none
        (sum_amounts 0 (line_items_for id sub sub.price.amount db))

  -- The invoice that `generateProrated` stores.
  abbrev pub prorated_draft : Date → Invoice
  prorated_draft cancelled_at =
      draft_of id sub cancelled_at
        (some (prorated_notes sub.period_start sub.period_end cancelled_at))
        (sum_amounts 0 (line_items_for id sub (prorated_fee sub cancelled_at) db))

module _ (id : ℕ) (sub : Subscription) (db : Database) (b : IsBalanced db) where
  created :
      (inv : Invoice) → Table.lookup db.next_id (Table.create db.next_id inv db.invoices) ≡ some inv
  created inv =
      rw
        (
          lookup-create db.next_id db.next_id inv db.invoices
              (lookup_next db.next_id db.invoices b.keys),
          ==_refl db.next_id,
        )
        refl

  pub generate_lem : generate id sub db ≡ (
    ok (some (db.next_id, full_draft id sub db)),
    with_draft (full_draft id sub db) (line_items_for id sub sub.price.amount db) db,
  )
  unfolding generate
  generate_lem = rw created refl

  pub generate-IsBalanced : IsBalanced (generate id sub db).1
  generate-IsBalanced =
      rw generate_lem (draft-Books db.invoices db.ledger db.next_id b (full_draft id sub db) refl)

  pub generate_prorated_lem :
      (cancelled_at : Date)
      → generate_prorated id sub cancelled_at db ≡ (
        ok (some (db.next_id, prorated_draft id sub db cancelled_at)),
        with_draft
            (prorated_draft id sub db cancelled_at)
            (line_items_for id sub (prorated_fee sub cancelled_at) db)
            db,
      )
  unfolding generate_prorated
  generate_prorated_lem cancelled_at = rw created refl

  pub generate_prorated-IsBalanced :
      (cancelled_at : Date) → IsBalanced (generate_prorated id sub cancelled_at db).1
  generate_prorated-IsBalanced cancelled_at =
      rw generate_prorated_lem (
        draft-Books db.invoices db.ledger db.next_id b (prorated_draft id sub db cancelled_at) refl)
