-- ===== src/Billing/Tests/Invoices.antt =====
-- The theorems about invoices, periods and ticks at concrete rows, and runs of the services.
use mathlib.Core.List.{Memᴰ}
use meterplex.Prelude.{◌↔◌, ◌+◌, ◌*◌, ◌≤◌, ◌<◌, ◌≡◌, refl, true, some, arith}
use meterplex.Prelude.Table
use meterplex.Calendar.{Date, IsDate, day_ms, get_time}
use meterplex.Billing.State.{Interval}
use meterplex.Billing.Monad.{ok}
use meterplex.Billing.Lifecycle.{finalize}
use meterplex.Billing.Lifecycle.Ledger.{IsBalanced}
use meterplex.Billing.Overage.{calculate_proration, prorated_amount}
use meterplex.Billing.Generation.{
  sum_amounts, line_items_for, period_key, aggregates_of, snapshots_of, generate, generate_prorated,
}
use meterplex.Billing.Generation.Totals.{charges, line_items_total}
use meterplex.Billing.Period.{
  find_billable_subscriptions, calculate_next_period_end, has_invoice, find_cancelled_subscriptions,
  advance_period,
}
use meterplex.Billing.Period.Due.{next_period_end_later}
use meterplex.Billing.Period.Billable.{IsUnbilled, find_billable_iff}
use meterplex.Billing.Cron.{bill_subscription, bill_cancelled, run_cycle, bill_all}
use meterplex.Billing.Cron.Soundness.{run_cycle-IsBalanced}
use meterplex.Billing.Cron.Billed.{advanced, bill_subscription_once}
use meterplex.Billing.Tests.{
  jan_31, feb_1, jan_1, jan_16, feb_2, subscription, fresh_db, fresh-IsBalanced,
}

-- The invoice of January has the fee and 125 cents for 250 calls at half a cent.
total_of_january : sum_amounts 0 (line_items_for 1 subscription 4900 fresh_db) ≡ 4900 + 125
unfolding sum_amounts line_items_for get_time
total_of_january = refl

-- The tick after January bills the active subscription and the cancelled one.
tick : (run_cycle feb_2 fresh_db).0 ≡ record { generated = 2; failed = 0 }
unfolding run_cycle bill_all bill_subscription bill_cancelled find_billable_subscriptions
    find_cancelled_subscriptions generate Table.lookup Table.create finalize advance_period
    generate_prorated
tick = refl

run_cycle-IsBalanced_example : IsBalanced (run_cycle feb_2 fresh_db).1
run_cycle-IsBalanced_example = run_cycle-IsBalanced feb_2 fresh_db fresh-IsBalanced

bill_subscription_once_example :
    ((bill_subscription feb_2 1 subscription fresh_db).0 ≡ ok true)
    × (has_invoice 1 subscription (bill_subscription feb_2 1 subscription fresh_db).1 ≡ true)
    × (Table.lookup 1 (bill_subscription feb_2 1 subscription fresh_db).1.subscriptions
        ≡ some (advanced subscription subscription))
unfolding Table.lookup
bill_subscription_once_example =
    bill_subscription_once feb_2 1 subscription fresh_db fresh-IsBalanced refl

find_billable_iff_example :
    Memᴰ (2, subscription) (find_billable_subscriptions feb_2 fresh_db)
    ↔ (Memᴰ (2, subscription) fresh_db.subscriptions × IsUnbilled feb_2 2 subscription fresh_db)
find_billable_iff_example = find_billable_iff feb_2 2 subscription fresh_db

line_items_total_example :
    sum_amounts 0 (line_items_for 1 subscription 4900 fresh_db)
    ≡ 4900
      + charges
          (aggregates_of 7 1 (period_key jan_1 Interval.monthly) fresh_db)
          (snapshots_of 1 fresh_db)
line_items_total_example = line_items_total 1 4900 subscription fresh_db

jan_31-IsDate : IsDate jan_31
jan_31-IsDate = record {
  month_range = omega arith;
  day_pos = omega arith;
  day_range = unfold meterplex.Calendar.days_in_month in omega arith;
  ms_range = omega arith;
}

-- One month after the 31st of January is the 3rd of March.
overflow :
    calculate_next_period_end jan_31 Interval.monthly
    ≡ record { year = 2026; month = 2; day = 3; ms = 0 }
unfolding calculate_next_period_end
overflow = refl

next_period_end_later_example :
    IsDate (calculate_next_period_end jan_31 Interval.monthly)
    × (get_time jan_31 + 28 * day_ms ≤ get_time (calculate_next_period_end jan_31 Interval.monthly))
next_period_end_later_example = next_period_end_later jan_31 Interval.monthly jan_31-IsDate

january_length : get_time jan_1 < get_time feb_1
unfolding get_time
january_length = omega arith

-- 15 of 31 days
half_of_january : prorated_amount 4900 (calculate_proration jan_1 feb_1 jan_16) ≡ 2371
unfolding prorated_amount calculate_proration
half_of_january = refl
