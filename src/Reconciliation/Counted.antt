-- ===== src/Reconciliation/Counted.antt =====
-- The counter of a run against the issues that it stores.
use meterplex.Prelude.{
  ℕ, ◌+◌, Bool, true, false, Option, none, some, String, List, [], ◌∷◌, length, ◌≡◌, refl, ◌∙◌, ap,
  arith, ◌==◌, ==_refl,
}
use meterplex.Prelude.Table
use meterplex.Prelude.Table.{Table, length-find_many-create, lookup-create}
use meterplex.Prelude.Service.{ok, pure, bind_ok, catch_ok, throw, modify, or_throw, ◌>>=◌, ◌>>◌}
use meterplex.Text.{Text}
use meterplex.Calendar.{Date, get_time}
use meterplex.Billing.State.{Interval, Aggregate, Database}
use meterplex.Billing.Generation.{period_key}
use meterplex.Reconciliation.State.{
  Reports, Run, Issue, Exec, Tally, Error, add, add_issue, create_issue, create_run, update_run,
  report, report_if, for_each, count_check, ◌⊕◌, record_not_found, add_run,
}
use meterplex.Reconciliation.Usage.{
  Sums, compare_row, find_phantom, compare_tenant, check_usage, active_tenants, expected_of,
  aggregates_of,
}
use meterplex.Reconciliation.Payments.{
  check_payments, overdue_invoices, past_due_with_payments, cancelled_no_invoice, ledger_mismatches,
}
use meterplex.Reconciliation.Runs.{run_reconciliation, checks, completed, failed, new_run}

-- The issues that are stored under a run
unfoldable pub issues_of : ℕ → Reports → ℕ
issues_of run r = length (Table.find_many (λ _ i. i.run_id == run) r.issues)

-- A part of the run stores as many issues as it counts, and touches no run.
record Counts (run : ℕ) (m : Exec Tally) : Type 0 where
  at :
      (r : Reports)
      → (t : Tally) × (r' : Reports) × (m r ≡ (ok t, r'))
        × (issues_of run r' ≡ issues_of run r + t.found)
        × (r'.runs ≡ r.runs)

module _ (run : ℕ) where
  Counts-pure : (n : ℕ) → Counts run (pure (record { checked = n; found = 0 }))
  Counts-pure n = record {
    at = λ r. (record { checked = n; found = 0 }, r, refl, omega arith, refl);
  }

  Counts-report : (i : Issue) → (i.run_id == run) ≡ true → Counts run (report i)
  unfolding report create_issue issues_of
  Counts-report i own = record {
    at = λ r. (
      record { checked = 0; found = 1 },
      add_issue i r,
      refl,
      ground (arith, length-find_many-create (λ _ j. j.run_id == run) r.next_id i r.issues, own),
      refl,
    );
  }

  Counts-report_if : (c : Bool) (i : Issue) → (i.run_id == run) ≡ true → Counts run (report_if c i)
  unfolding report_if
  Counts-report_if true i own = Counts-report i own
  Counts-report_if false i own = Counts-pure 0

  Counts-⊕ : (m k : Exec Tally) → Counts run m → Counts run k → Counts run (m ⊕ k)
  Counts-⊕ m k cm ck = record {
    at = λ r.
        let (a, r1, done1, count1, runs1) = cm.at r in
        let (b, r2, done2, count2, runs2) = ck.at r1 in
        (
          add a b,
          r2,
          bind_ok m (λ a. k >>= λ b. pure (add a b)) {s = r} {s' = r1} {a = a} done1
              ∙ bind_ok k (λ b. pure (add a b)) {s = r1} {s' = r2} {a = b} done2,
          omega (arith, count1, count2),
          runs2 ∙ runs1,
        );
  }

  Counts-for_each {ℓ} :
      {A : Type ℓ} (body : A → Exec Tally) (xs : List A)
      → ((x : A) → Counts run (body x))
      → Counts run (for_each body xs)
  unfolding for_each
  Counts-for_each body [] h = Counts-pure 0
  Counts-for_each body (x ∷ xs) h =
      Counts-⊕ (body x) (for_each body xs) (h x) (Counts-for_each body xs h)

  Counts-tenant :
      (tenant : ℕ) (period : Text) (expected : Sums) (aggregates : List Aggregate)
      → Counts run (compare_tenant run tenant period expected aggregates)
  unfolding compare_tenant compare_row find_phantom
  Counts-tenant tenant period expected aggregates =
      Counts-⊕ (for_each (compare_row run tenant period aggregates) expected)
        (for_each (find_phantom run tenant period expected) aggregates)
        (Counts-for_each (compare_row run tenant period aggregates) expected (λ (key, total).
          Counts-⊕ _ count_check (Counts-report_if _ _ (==_refl run)) (Counts-pure 1)))
        (Counts-for_each (find_phantom run tenant period expected) aggregates
          (λ a. Counts-report_if _ _ (==_refl run)))

  Counts-usage :
      (source : ℕ → Option String) (db : Database) (period : Text)
      → Counts run (check_usage source db run period)
  unfolding check_usage
  Counts-usage source db period = Counts-for_each _ (active_tenants db.subscriptions) (λ tenant.
      Counts-tenant tenant period (expected_of source tenant db.usage_events)
        (aggregates_of tenant period db.aggregates))

  Counts-payments :
      (after_update : ℕ → ℕ → Bool) (now : ℕ) (db : Database)
      → Counts run (check_payments run after_update now db)
  unfolding check_payments
  Counts-payments after_update now db =
      Counts-⊕ _ _
        (Counts-⊕ _ _
          (Counts-⊕ _ _
            (Counts-for_each _ (overdue_invoices now db) (λ (id, i). Counts-report _ (==_refl run)))
            (Counts-for_each _ (past_due_with_payments after_update db)
              (λ (s, tenant, p). Counts-report _ (==_refl run))))
          (Counts-for_each _ (cancelled_no_invoice db) (λ (id, s). Counts-report _ (==_refl run))))
        (Counts-for_each _ (ledger_mismatches db) (λ (id, i). Counts-report _ (==_refl run)))

update_run_found :
    (id : ℕ) (f : Run → Run) (run : Run) (r : Reports)
    → Table.lookup id r.runs ≡ some run
    → update_run id f r ≡ (ok (f run), record r { runs = Table.update id f r.runs })
unfolding update_run
update_run_found id f run r h =
    ap
      (λ (o : Option Run).
        (or_throw o record_not_found >>= λ row.
        modify {S = Reports} {E = Error} (λ r. record r { runs = Table.update id f r.runs })
        >> pure (f row))
          r)
      h

-- A run of the reconciliation always completes: it returns its row, marked as completed, and the
-- number of issues in that row is the number of issues that the run has stored, if the next
-- id is free among the runs and no issue names it.
pub run_counts_issues :
    (source : ℕ → Option String) (after_update : ℕ → ℕ → Bool) (who : String) (now : Date)
    (db : Database) (r : Reports)
    → Table.lookup r.next_id r.runs ≡ none
    → issues_of r.next_id r ≡ 0
    → (t : Tally) × ((run_reconciliation source after_update who now db r).0
        ≡ ok (completed t (new_run who)))
      × (issues_of r.next_id (run_reconciliation source after_update who now db r).1 ≡ t.found)
unfolding run_reconciliation create_run issues_of
run_counts_issues source after_update who now db r fresh none_yet =
    let id : ℕ = r.next_id in
    let r1 : Reports = add_run (new_run who) r in
    let m : Exec Tally = checks source after_update now db id in
    let (t, r2, done, count, runs) =
      (Counts-⊕ id (check_usage source db id (period_key now Interval.monthly))
          (check_payments id after_update (get_time now) db)
          (Counts-usage id source db (period_key now Interval.monthly))
          (Counts-payments id after_update (get_time now) db)).at
        r1 in
    let row : Table.lookup id r2.runs ≡ some (new_run who) =
      cc (runs, lookup-create id id (new_run who) r.runs fresh, ==_refl id) in
    let r3 : Reports = record r2 { runs = Table.update id (completed t) r2.runs } in
    let run : Run = completed t (new_run who) in
    let all_done =
      catch_ok (m >>= λ t. update_run id (completed t)) {s = r1} {s' = r3}
        (λ e. update_run id failed >>= λ _. throw e) {a = run}
        (bind_ok m (λ t. update_run id (completed t)) {s = r1} {s' = r2} {a = t} done
          ∙ update_run_found id (completed t) (new_run who) r2 row) in
    (t, ap (λ o. o.0) all_done, rw all_done (omega (arith, count, none_yet)))
