-- ===== src/Billing/Period/Due.antt =====
-- The selection of due subscriptions in billing-period.service.ts.
use meterplex.Prelude.{
  ℕ, ◌+◌, ◌*◌, ◌≤◌, ◌≡◌, refl, Bool, true, not, ◌&&◌, some, List, [], ◌∷◌, arith,
}
use meterplex.Prelude.Table
use meterplex.Prelude.Table.{Table, find_first-create, find_first-update}
use meterplex.Calendar.{Date, IsDate, day_ms, get_time}
use meterplex.Calendar.Advance.{next_month_lem, next_year_lem, days_in_month_bounds}
use meterplex.Billing.State.{Interval, Invoice, Item, Subscription, Database}
use meterplex.Billing.Monad.{ok}
use meterplex.Billing.Generation.Drafts.{with_draft}
use meterplex.Billing.Period.{
  has_invoice, is_due, without_invoice, find_billable_subscriptions, calculate_next_period_end,
  advance_period, invoices_period, prorated_invoice,
}

-- Advancing a subscription that is there writes its next period.
pub advance_period_lem :
    (id : ℕ) (end : Date) (interval : Interval) (sub : Subscription) (db : Database)
    → Table.lookup id db.subscriptions ≡ some sub
    → advance_period id end interval db ≡ (
      ok tt,
      record db {
        subscriptions =
            Table.update id
              (λ s. record s {
                period_start = end;
                period_end = calculate_next_period_end end interval;
              })
              db.subscriptions;
      },
    )
unfolding advance_period
advance_period_lem id end interval sub db row = ground arith

without_invoice_lem :
    (db : Database) (t : Table Subscription)
    → without_invoice db t ≡ Table.find_many (λ id sub. not (has_invoice id sub db)) t
unfolding without_invoice Table.find_many
without_invoice_lem db [] = refl
without_invoice_lem db ((id, sub) ∷ t) = ground (arith, without_invoice_lem db t)

find_many_twice {ℓ} :
    {V : Type ℓ} (p q : ℕ → V → Bool) (t : Table V)
    → Table.find_many q (Table.find_many p t) ≡ Table.find_many (λ k v. p k v && q k v) t
unfolding Table.find_many
find_many_twice p q [] = refl
find_many_twice p q ((k, v) ∷ t) = ground (arith, find_many_twice p q t)

-- The subscriptions that are billed are, in the order of the table, those that are due and have no
-- invoice for exactly their current period, whatever the status of such an invoice.
pub find_billable_lem :
    (now : Date) (db : Database)
    → find_billable_subscriptions now db
      ≡ Table.find_many
          (λ id sub. is_due now id sub && not (has_invoice id sub db))
          db.subscriptions
find_billable_lem now db =
    unfold find_billable_subscriptions in
    rw without_invoice_lem (find_many_twice (is_due now) _ db.subscriptions)

-- The period after one that ends at a real date ends at a real date, at least 28 days later.
pub next_period_end_later :
    (end : Date) (interval : Interval)
    → IsDate end
    → IsDate (calculate_next_period_end end interval)
      × (get_time end + 28 * day_ms ≤ get_time (calculate_next_period_end end interval))
next_period_end_later end Interval.annually d =
    let (v, later) = next_year_lem end d in
    unfold calculate_next_period_end in (v, omega (arith, later))
next_period_end_later end Interval.monthly d =
    let (v, exact) = next_month_lem end d in
    unfold calculate_next_period_end in
    (v, rw exact (omega (arith, (days_in_month_bounds end.year end.month).0)))

-- A stored draft of a subscription's whole period makes the subscription no longer due.
pub has_invoice-with_draft :
    (id : ℕ) (sub : Subscription) (inv : Invoice) (items : List Item) (db : Database)
    → inv.subscription_id ≡ id
    → inv.period_start ≡ sub.period_start
    → inv.period_end ≡ sub.period_end
    → has_invoice id sub (with_draft inv items db) ≡ true
unfolding has_invoice
has_invoice-with_draft id sub inv items db own start end =
    rw (find_first-create (invoices_period id sub) db.next_id inv db.invoices, own, start, end)
      (ground arith)

-- A change to a row that keeps its subscription, period and notes keeps what the searches find.
module _ (id : ℕ) (sub : Subscription) (k : ℕ) (f : Invoice → Invoice) (t : Table Invoice)
    (same_sub : (v : Invoice) → (f v).subscription_id ≡ v.subscription_id)
    (same_start : (v : Invoice) → (f v).period_start ≡ v.period_start) where
  pub find_period-update :
      ((v : Invoice) → (f v).period_end ≡ v.period_end)
      → Table.is_found (Table.find_first (invoices_period id sub) (Table.update k f t))
        ≡ Table.is_found (Table.find_first (invoices_period id sub) t)
  find_period-update same_end =
      find_first-update (invoices_period id sub) k f t
        (λ j v. rw (same_sub v, same_start v, same_end v))

  pub find_prorated-update :
      ((v : Invoice) → (f v).notes ≡ v.notes)
      → Table.is_found (Table.find_first (prorated_invoice id sub) (Table.update k f t))
        ≡ Table.is_found (Table.find_first (prorated_invoice id sub) t)
  find_prorated-update same_notes =
      find_first-update (prorated_invoice id sub) k f t
        (λ j v. rw (same_sub v, same_start v, same_notes v))
