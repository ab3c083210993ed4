-- ===== src/Billing/Cron/Prorated.antt =====
-- The body of the second loop of billing-cron.service.ts, and the search that selects for it.
use meterplex.Prelude.{
  ℕ, ◌≡◌, ◌∙◌, refl, Bool, true, false, ◌||◌, some, [], ◌∷◌, ◌++◌, arith, ==_refl,
}
use meterplex.Prelude.Table
use meterplex.Prelude.Table.{lookup-create, lookup_next, find_first-create}
use meterplex.Calendar.{Date}
use meterplex.Billing.State.{Subscription, Database}
use meterplex.Billing.Monad.{ok, pure}
use meterplex.Billing.Monad.Keeps.{bind_ok}
use meterplex.Billing.Numbers.{upsert_sequence}
use meterplex.Billing.Lifecycle.{finalize}
use meterplex.Billing.Lifecycle.Ledger.{IsBalanced}
use meterplex.Billing.Lifecycle.Transitions.{finalized_row, charge_for, finalize_draft}
use meterplex.Billing.Generation.{generate_prorated, line_items_for}
use meterplex.Billing.Generation.Notes.{prorated_notes-lacks}
use meterplex.Billing.Generation.Drafts.{
  with_draft, prorated_fee, prorated_draft, generate_prorated_lem,
}
use meterplex.Billing.Period.{has_prorated_invoice, prorated_invoice}
use meterplex.Billing.Period.Due.{find_prorated-update}
use meterplex.Billing.Cron.{bill_prorated_invoice, bill_cancelled}

module _ (now : Date) (id : ℕ) (sub : Subscription) (at : Date) (db : Database)
    (b : IsBalanced db) where
  abbrev drafted : Database
  drafted =
      with_draft (prorated_draft id sub db at) (line_items_for id sub (prorated_fee sub at) db) db

  abbrev billed : Database
  billed = record drafted {
    invoices =
        Table.update db.next_id (finalized_row db.next_id sub.tenant_id now drafted)
          drafted.invoices;
    ledger =
        db.ledger
        ++ charge_for db.next_id sub.tenant_id now drafted (prorated_draft id sub db at) ∷ [];
    sequences = upsert_sequence now.year db.sequences;
  }

  stored : Table.lookup db.next_id drafted.invoices ≡ some (prorated_draft id sub db at)
  stored =
      rw
        (
          lookup-create db.next_id db.next_id (prorated_draft id sub db at) db.invoices
              (lookup_next db.next_id db.invoices b.keys),
          ==_refl db.next_id,
        )
        refl

  pub bill_cancelled_lem : bill_cancelled now id sub at db ≡ (ok true, billed)
  unfolding bill_cancelled
  bill_cancelled_lem =
      bind_ok (generate_prorated id sub at) (bill_prorated_invoice now sub)
        (generate_prorated_lem id sub db b at)
      ∙ bind_ok (finalize db.next_id sub.tenant_id now) (λ _. pure true)
          (finalize_draft db.next_id sub.tenant_id now drafted (prorated_draft id sub db at) stored
            refl refl)

or_false : {a c : Bool} → a ≡ false → c ≡ false → (a || c) ≡ false
or_false h k = ground arith

-- No draft that `generateProrated` makes fits the search for an earlier prorated invoice.
draft_lacks :
    (id k : ℕ) (sub other : Subscription) (own : ℕ) (db : Database) (at : Date)
    → prorated_invoice id sub k (prorated_draft own other db at) ≡ false
draft_lacks id k sub other own db at =
    rw (prorated_notes-lacks other.period_start other.period_end at) (ground arith)

-- If the books are balanced, billing a cancelled subscription succeeds, and the search for an earlier prorated invoice of any
-- subscription that found none before finds none afterwards.
bill_cancelled_again :
    (now : Date) (id : ℕ) (sub : Subscription) (at : Date) (db : Database)
    → IsBalanced db
    → (other : ℕ) (s : Subscription) → has_prorated_invoice other s db ≡ false
    → let (r, db') = bill_cancelled now id sub at db in
      (r ≡ ok true) × (has_prorated_invoice other s db' ≡ false)
bill_cancelled_again now id sub at db b other s clean = rw (bill_cancelled_lem now id sub at db b) (
  refl,
  (unfold has_prorated_invoice in
      find_prorated-update other s db.next_id
        (finalized_row db.next_id sub.tenant_id now (drafted now id sub at db b))
        (drafted now id sub at db b).invoices (λ v. refl) (λ v. refl) (λ v. refl)
      ∙ find_first-create (prorated_invoice other s) db.next_id (prorated_draft id sub db at)
          db.invoices
      ∙ or_false clean (draft_lacks other db.next_id s sub id db at)),
)
