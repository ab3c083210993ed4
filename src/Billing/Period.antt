-- ===== src/Billing/Period.antt =====
-- src/modules/invoices/billing-period.service.ts: which subscriptions are due, and the move to the
-- next period. A query returns its rows in the order of the table.
use meterplex.Prelude.{
  ℕ, String, Bool, true, false, not, ◌&&◌, ◌||◌, Option, none, some, List, [], ◌∷◌, ◌==◌, leb,
  if◌then◌else◌,
}
use meterplex.Prelude.Table
use meterplex.Prelude.Table.{Table}
use meterplex.Text.{Text, codes, contains}
use meterplex.Calendar.{Date, get_time, next_month, next_year}
use meterplex.Billing.State.{SubscriptionStatus, Interval, Invoice, Subscription, Database}
use meterplex.Billing.Monad.{Exec, record_not_found, gets, or_throw, modify, ◌>>=◌, ◌>>◌}
pub mod Due
pub mod Billable

abbrev pub is_current : SubscriptionStatus → Bool
is_current SubscriptionStatus.active = true
is_current SubscriptionStatus.trialing = true
is_current SubscriptionStatus.past_due = false
is_current SubscriptionStatus.cancelled = false
is_current SubscriptionStatus.paused = false

abbrev pub is_active_or_cancelled : SubscriptionStatus → Bool
is_active_or_cancelled SubscriptionStatus.active = true
is_active_or_cancelled SubscriptionStatus.cancelled = true
is_active_or_cancelled SubscriptionStatus.trialing = false
is_active_or_cancelled SubscriptionStatus.past_due = false
is_active_or_cancelled SubscriptionStatus.paused = false

abbrev pub same_time : Date → Date → Bool
same_time a b = get_time a == get_time b

-- an invoice of the subscription for exactly this period
abbrev pub invoices_period : ℕ → Subscription → ℕ → Invoice → Bool
invoices_period id sub _ inv =
    inv.subscription_id == id
    && same_time inv.period_start sub.period_start
    && same_time inv.period_end sub.period_end

abbrev pub is_some {ℓ} : {A : Type ℓ} → Option A → Bool
is_some none = false
is_some (some a) = true

-- `existingInvoice`
unfoldable pub has_invoice : ℕ → Subscription → Database → Bool
unfolding Table.find_first get_time
has_invoice id sub db = Table.is_found (Table.find_first (invoices_period id sub) db.invoices)

unfoldable pub is_due : Date → ℕ → Subscription → Bool
unfolding get_time
is_due now id sub = is_current sub.status && leb (get_time sub.period_end) (get_time now)

-- the loop that drops what has an invoice
unfoldable pub without_invoice : Database → Table Subscription → Table Subscription
unfolding has_invoice
without_invoice db [] = []
without_invoice db ((id, sub) ∷ rest) =
    let others = without_invoice db rest in
    if has_invoice id sub db then others else (id, sub) ∷ others

unfoldable pub find_billable_subscriptions : Date → Database → Table Subscription
unfolding without_invoice is_due Table.find_many
find_billable_subscriptions now db =
    without_invoice db (Table.find_many (is_due now) db.subscriptions)

unfoldable pub calculate_next_period_end : Date → Interval → Date
unfolding next_month next_year
calculate_next_period_end end Interval.annually = next_year end
calculate_next_period_end end Interval.monthly = next_month end

-- `subscription.update`, which fails on a missing row
unfoldable pub update_subscription : ℕ → (Subscription → Subscription) → Exec (Unit {0})
unfolding Table.lookup Table.update
update_subscription id f = do
  row ← gets (λ db. Table.lookup id db.subscriptions)
  or_throw row record_not_found
  modify (λ db. record db { subscriptions = Table.update id f db.subscriptions })

unfoldable pub advance_period : ℕ → Date → Interval → Exec (Unit {0})
unfolding update_subscription
advance_period subscription_id current_period_end interval =
    update_subscription subscription_id (λ s. record s {
      period_start = current_period_end;
      period_end = calculate_next_period_end current_period_end interval;
    })

abbrev pub contains_notes : Text → Option Text → Bool
contains_notes word none = false
contains_notes word (some notes) = contains word notes

-- the search for an earlier prorated invoice
abbrev pub prorated_invoice : ℕ → Subscription → ℕ → Invoice → Bool
prorated_invoice id sub _ inv =
    inv.subscription_id == id
    && same_time inv.period_start sub.period_start
    && contains_notes (codes "prorated") inv.notes

unfoldable pub has_prorated_invoice : ℕ → Subscription → Database → Bool
unfolding Table.find_first get_time
has_prorated_invoice id sub db =
    Table.is_found (Table.find_first (prorated_invoice id sub) db.invoices)

unfoldable pub was_cancelled : ℕ → Subscription → Bool
was_cancelled id sub = is_some sub.cancelled_at && is_active_or_cancelled sub.status

-- The selected subscriptions, each with the date of its cancellation.
unfoldable pub without_prorated : Database → Table Subscription → List (ℕ × Subscription × Date)
unfolding has_prorated_invoice
without_prorated db [] = []
without_prorated db ((id, sub) ∷ rest) =
    let others = without_prorated db rest in
    elim sub.cancelled_at [
      | none ↦ others
      | some at ↦ if has_prorated_invoice id sub db then others else (id, sub, at) ∷ others
    ]

unfoldable pub find_cancelled_subscriptions : Database → List (ℕ × Subscription × Date)
unfolding without_prorated was_cancelled Table.find_many
find_cancelled_subscriptions db =
    without_prorated db (Table.find_many was_cancelled db.subscriptions)
