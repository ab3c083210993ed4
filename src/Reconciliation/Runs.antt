-- ===== src/Reconciliation/Runs.antt =====
-- runReconciliation, and what an administrator does with an issue.
use meterplex.Prelude.{ℕ, String, Bool, Option, none, some, [], ◌∷◌}
use meterplex.Prelude.Table
use meterplex.Prelude.Service.{gets, throw, or_throw, catch, ◌>>=◌, ◌>>◌}
use meterplex.Text.{Text}
use meterplex.Calendar.{Date, get_time}
use meterplex.Billing.State.{Interval, Database}
use meterplex.Billing.Generation.{period_key}
use meterplex.Reconciliation.State.{
  Run, RunStatus, Issue, IssueStatus, Exec, Tally, issue_not_found, create_run, update_run,
  update_issue, ◌⊕◌,
}
use meterplex.Reconciliation.Usage.{check_usage}
use meterplex.Reconciliation.Payments.{check_payments}

abbrev pub new_run : String → Run
new_run who = record {
  triggered_by = who;
  status = RunStatus.running;
  tenants_checked = 0;
  issues_found = 0;
}

abbrev pub completed : Tally → Run → Run
completed tally run = record run {
  status = RunStatus.completed;
  tenants_checked = tally.checked;
  issues_found = tally.found;
}

abbrev pub failed : Run → Run
failed run = record run { status = RunStatus.failed }

module _ (source : ℕ → Option String) (after_update : ℕ → ℕ → Bool) where
  -- The two parts of a run
  abbrev pub checks : Date → Database → ℕ → Exec Tally
  checks now db id =
      check_usage source db id (period_key now Interval.monthly)
      ⊕ check_payments id after_update (get_time now) db

  unfoldable pub run_reconciliation : String → Date → Database → Exec Run
  unfolding create_run update_run check_usage check_payments period_key get_time
  run_reconciliation who now db = do
    id ← create_run (new_run who)
    catch (do tally ← checks now db id; update_run id (completed tally))
        (λ e. do update_run id failed; throw e)

unfoldable pub find_issue_by_id : ℕ → Exec Issue
unfolding Table.lookup
find_issue_by_id id = do row ← gets (λ r. Table.lookup id r.issues); or_throw row issue_not_found

-- `notes && { notes }`: no notes, and empty ones, leave what is there
abbrev pub noted : Option Text → Option Text → Option Text
noted none old = old
noted (some []) old = old
noted (some (c ∷ notes)) old = some (c ∷ notes)

unfoldable pub acknowledge_issue : ℕ → Option Text → Exec Issue
unfolding find_issue_by_id update_issue
acknowledge_issue id notes = do
  find_issue_by_id id
  update_issue id (λ i. record i { status = IssueStatus.acknowledged; notes = noted notes i.notes })

unfoldable pub resolve_issue : ℕ → Option Text → Exec Issue
unfolding find_issue_by_id update_issue
resolve_issue id notes = do
  find_issue_by_id id
  update_issue id (λ i. record i { status = IssueStatus.resolved; notes = noted notes i.notes })
