-- ===== src/Billing/Cron/Billed.antt =====
-- The body of the first loop of billing-cron.service.ts.
use meterplex.Prelude.{ℕ, ◌≡◌, ◌∙◌, refl, true, some, [], ◌∷◌, ◌++◌, ==_refl}
use meterplex.Prelude.Table
use meterplex.Prelude.Table.{lookup-create, lookup-update, lookup_next}
use meterplex.Calendar.{Date}
use meterplex.Billing.State.{Subscription, Database}
use meterplex.Billing.Monad.{ok, pure, ◌>>◌}
use meterplex.Billing.Monad.Keeps.{bind_ok}
use meterplex.Billing.Numbers.{upsert_sequence}
use meterplex.Billing.Lifecycle.{finalize}
use meterplex.Billing.Lifecycle.Ledger.{IsBalanced}
use meterplex.Billing.Lifecycle.Transitions.{finalized_row, charge_for, finalize_draft}
use meterplex.Billing.Generation.{generate, line_items_for}
use meterplex.Billing.Generation.Drafts.{with_draft, full_draft, generate_lem}
use meterplex.Billing.Period.{advance_period, calculate_next_period_end, has_invoice}
use meterplex.Billing.Period.Due.{advance_period_lem, has_invoice-with_draft, find_period-update}
use meterplex.Billing.Cron.{bill_invoice, bill_subscription}

-- The move of a subscription to the period behind `sub`'s.
abbrev pub advanced : Subscription → Subscription → Subscription
advanced sub s = record s {
  period_start = sub.period_end;
  period_end = calculate_next_period_end sub.period_end sub.price.interval;
}

module _ (now : Date) (id : ℕ) (sub : Subscription) (db : Database) (b : IsBalanced db)
    (row : Table.lookup id db.subscriptions ≡ some sub) where
  -- The database with the draft.
  abbrev drafted : Database
  drafted = with_draft (full_draft id sub db) (line_items_for id sub sub.price.amount db) db

  abbrev pub billed : Database
  billed = record drafted {
    invoices =
        Table.update db.next_id (finalized_row db.next_id sub.tenant_id now drafted)
          drafted.invoices;
    ledger =
        db.ledger ++ charge_for db.next_id sub.tenant_id now drafted (full_draft id sub db) ∷ [];
    sequences = upsert_sequence now.year db.sequences;
    subscriptions = Table.update id (advanced sub) db.subscriptions;
  }

  stored : Table.lookup db.next_id drafted.invoices ≡ some (full_draft id sub db)
  stored =
      rw
        (
          lookup-create db.next_id db.next_id (full_draft id sub db) db.invoices
              (lookup_next db.next_id db.invoices b.keys),
          ==_refl db.next_id,
        )
        refl

  -- A subscription that is there is billed: a draft is stored and finalized, its total is charged,
  -- and the subscription moves on to the next period.
  pub bill_subscription_lem : bill_subscription now id sub db ≡ (ok true, billed)
  unfolding bill_subscription
  bill_subscription_lem =
      bind_ok (generate id sub) (bill_invoice now id sub) (generate_lem id sub db b)
      ∙ bind_ok (finalize db.next_id sub.tenant_id now)
          (λ _. advance_period id sub.period_end sub.price.interval >> pure true)
          (finalize_draft db.next_id sub.tenant_id now drafted (full_draft id sub db) stored refl
            refl)
      ∙ bind_ok (advance_period id sub.period_end sub.price.interval) (λ _. pure true)
          (advance_period_lem id sub.period_end sub.price.interval sub _ row)

  -- Afterwards the period has an invoice, and the subscription has moved on to the next one.
  pub billed_once :
      (has_invoice id sub billed ≡ true)
      × (Table.lookup id billed.subscriptions ≡ some (advanced sub sub))
  billed_once = (
    unfold has_invoice in
        find_period-update id sub db.next_id (finalized_row db.next_id sub.tenant_id now drafted)
          drafted.invoices (λ v. refl) (λ v. refl) (λ v. refl)
        ∙ has_invoice-with_draft id sub (full_draft id sub db)
            (line_items_for id sub sub.price.amount db) db refl refl refl,
    rw (lookup-update, row, ==_refl id) refl,
  )

-- If the books are balanced, billing a subscription that is there succeeds; it stores an invoice for exactly the period, and
-- moves the subscription to the period that begins where the billed one ended.
pub bill_subscription_once :
    (now : Date) (id : ℕ) (sub : Subscription) (db : Database)
    → IsBalanced db
    → Table.lookup id db.subscriptions ≡ some sub
    → let (r, db') = bill_subscription now id sub db in
      (r ≡ ok true)
      × (has_invoice id sub db' ≡ true)
      × (Table.lookup id db'.subscriptions ≡ some (advanced sub sub))
bill_subscription_once now id sub db b row =
    let (stays, moved) = billed_once now id sub db b row in
    rw (bill_subscription_lem now id sub db b row) (refl, stays, moved)
