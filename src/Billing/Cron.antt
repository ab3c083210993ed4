-- ===== src/Billing/Cron.antt =====
-- src/modules/invoices/billing-cron.service.ts: one tick of the billing cycle. All of a tick reads
-- the same `now`.
use meterplex.Prelude.{ℕ, ◌+◌, Bool, true, false, Option, none, some, List, [], ◌∷◌, if◌then◌else◌}
use meterplex.Prelude.Table
use meterplex.Prelude.Table.{Table}
use meterplex.Calendar.{Date}
use meterplex.Billing.State.{Invoice, Subscription, Database}
use meterplex.Billing.Monad.{Exec, Result, ok, err, pure, gets, ◌>>=◌, ◌>>◌}
use meterplex.Billing.Lifecycle.{finalize}
use meterplex.Billing.Generation.{generate, generate_prorated}
use meterplex.Billing.Period.{
  find_billable_subscriptions, find_cancelled_subscriptions, advance_period,
}
pub mod Soundness
pub mod Billed
pub mod Prorated

-- what the loops count
pub record Tally : Type 0 where
  pub generated : ℕ
  pub failed : ℕ

-- The rest of the body of the first loop; `false` counts as a failure.
unfoldable pub bill_invoice : Date → ℕ → Subscription → Option (ℕ × Invoice) → Exec Bool
bill_invoice now id sub none = pure false
bill_invoice now id sub (some (invoice_id, inv)) = do
  finalize invoice_id sub.tenant_id now
  advance_period id sub.period_end sub.price.interval
  pure true

unfoldable pub bill_subscription : Date → ℕ → Subscription → Exec Bool
unfolding bill_invoice
bill_subscription now id sub = do invoice ← generate id sub; bill_invoice now id sub invoice

unfoldable pub bill_prorated_invoice : Date → Subscription → Option (ℕ × Invoice) → Exec Bool
bill_prorated_invoice now sub none = pure false
bill_prorated_invoice now sub (some (invoice_id, inv)) = do
  finalize invoice_id sub.tenant_id now
  pure true

unfoldable pub bill_cancelled : Date → ℕ → Subscription → Date → Exec Bool
unfolding bill_prorated_invoice
bill_cancelled now id sub cancelled_at = do
  invoice ← generate_prorated id sub cancelled_at
  bill_prorated_invoice now sub invoice

-- `try { … generated++ } catch { failed++ }`, over what the body has done
abbrev pub count : Result Bool → Tally → Tally
count (ok true) t = record t { generated = t.generated + 1 }
count (ok false) t = record t { failed = t.failed + 1 }
count (err e) t = record t { failed = t.failed + 1 }

-- the first loop
unfoldable pub bill_all : Date → Table Subscription → Tally → Database → Tally × Database
bill_all now [] t db = (t, db)
bill_all now ((id, sub) ∷ rest) t db =
    let (r, db') = bill_subscription now id sub db in bill_all now rest (count r t) db'

-- the second loop
unfoldable pub bill_all_cancelled :
    Date → List (ℕ × Subscription × Date) → Tally → Database → Tally × Database
bill_all_cancelled now [] t db = (t, db)
bill_all_cancelled now ((id, sub, at) ∷ rest) t db =
    let (r, db') = bill_cancelled now id sub at db in bill_all_cancelled now rest (count r t) db'

unfoldable pub run_cycle : Date → Database → Tally × Database
unfolding bill_all bill_all_cancelled
run_cycle now db =
    let (t, db') =
      bill_all now (find_billable_subscriptions now db) (record { generated = 0; failed = 0 }) db in
    bill_all_cancelled now (find_cancelled_subscriptions db') t db'

-- The tick with its `isProcessing` guard, which a finished tick has reset.
unfoldable pub handle_billing_cycle : Bool → Date → Database → Bool × Option Tally × Database
handle_billing_cycle true now db = (true, none, db)
handle_billing_cycle false now db = let (t, db') = run_cycle now db in (false, some t, db')
