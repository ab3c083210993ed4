-- ===== src/Reconciliation/Tests.antt =====
-- A run on a small database, and the theorems about reconciliation at it.
use meterplex.Prelude.{ℕ, ◌≡◌, refl, Bool, false, String, Option, none, some, []}
use meterplex.Prelude.Table
use meterplex.Prelude.Service.{ok}
use meterplex.Text.{codes}
use meterplex.Billing.State.{Aggregate, UsageEvent, UsageEventStatus}
use meterplex.Billing.Tests.{open_db, open-IsBalanced, feb_2}
use meterplex.Reconciliation.State.{Reports, Tally}
use meterplex.Reconciliation.Payments.{ledger_mismatches}
use meterplex.Reconciliation.Runs.{run_reconciliation, completed, new_run}
use meterplex.Reconciliation.Books.{balanced_no_mismatches}
use meterplex.Reconciliation.Counted.{issues_of, run_counts_issues}

balanced_no_mismatches_example : ledger_mismatches open_db ≡ []
unfolding Table.lookup
balanced_no_mismatches_example =
    balanced_no_mismatches open_db open-IsBalanced (refl, tt) (refl, tt)

abbrev no_reports : Reports
no_reports = record { runs = []; issues = []; next_id = 1 }

abbrev no_source : ℕ → Option String
no_source id = none

abbrev calls_used : Aggregate
calls_used = record {
  tenant_id = 7;
  subscription_id = 1;
  feature_lookup_key = "calls";
  period_key = codes "2026-02";
  amount = 30;
}

abbrev calls_event : UsageEvent
calls_event = record {
  event_id = codes "e1";
  tenant_id = 7;
  subscription_id = some 1;
  feature_lookup_key = "calls";
  amount = 30;
  timestamp = feb_2;
  status = UsageEventStatus.aggregated;
}

abbrev never : ℕ → ℕ → Bool
never attempt sub = false

run_counts_issues_example :
    (t : Tally) × ((run_reconciliation no_source never "cron" feb_2 open_db no_reports).0
      ≡ ok (completed t (new_run "cron")))
    × (issues_of 1 (run_reconciliation no_source never "cron" feb_2 open_db no_reports).1 ≡ t.found)
unfolding Table.lookup issues_of Table.find_many
run_counts_issues_example =
    run_counts_issues no_source never "cron" feb_2 open_db no_reports refl refl
