-- ===== src/Reconciliation/State.antt =====
-- The tables of reconciliation in prisma/schema.prisma, and the counters of a run.
use meterplex.Prelude.{
  ℕ, ◌+◌, ◌-◌, Bool, true, false, String, Option, List, [], ◌∷◌, leb, if◌then◌else◌,
}
use meterplex.Prelude.Table
use meterplex.Prelude.Table.{Table}
use meterplex.Prelude.Service.{Service, gets, pure, or_throw, modify, ◌>>=◌, ◌>>◌}
use meterplex.Text.{Text}

-- The whole numbers: `pos n` is n, and `negsuc n` is -(n + 1).
pub data ℤ : Type 0 where
  pos : ℕ → ℤ
  negsuc : ℕ → ℤ

unfoldable pub minus : ℕ → ℕ → ℤ
minus a b = if leb b a then pos (a - b) else negsuc (b - a - 1)

pub data RunStatus : Type 0 where
  running completed failed : RunStatus

pub data IssueStatus : Type 0 where
  opened acknowledged resolved : IssueStatus

pub data Category : Type 0 where
  usage subscription_payment : Category

pub record Run : Type 0 where
  pub triggered_by : String
  pub status : RunStatus
  pub tenants_checked : ℕ
  pub issues_found : ℕ

pub record Issue : Type 0 where
  pub run_id : ℕ
  pub category : Category
  pub tenant_id : ℕ
  pub feature_lookup_key : Text
  pub period_key : Text
  pub expected : ℕ
  pub actual : ℕ
  pub difference : ℤ
  pub status : IssueStatus
  pub notes : Option Text

pub record Reports : Type 0 where
  pub runs : Table Run
  pub issues : Table Issue
  pub next_id : ℕ

pub data Error : Type 0 where
  issue_not_found record_not_found : Error

abbrev pub Exec : Type 0 → Type 0
Exec A = Service Reports Error A

abbrev pub add_issue : Issue → Reports → Reports
add_issue issue r = record r {
  issues = Table.create r.next_id issue r.issues;
  next_id = r.next_id + 1;
}

unfoldable pub create_issue : Issue → Exec (Unit {0})
create_issue issue = modify (add_issue issue)

abbrev pub add_run : Run → Reports → Reports
add_run run r = record r { runs = Table.create r.next_id run r.runs; next_id = r.next_id + 1 }

unfoldable pub create_run : Run → Exec ℕ
create_run run = do id ← gets (λ r. r.next_id); modify (add_run run); pure id

unfoldable pub update_run : ℕ → (Run → Run) → Exec Run
unfolding Table.lookup Table.update
update_run id f = do
  row ← gets (λ r. Table.lookup id r.runs)
  run ← or_throw row record_not_found
  modify (λ r. record r { runs = Table.update id f r.runs })
  pure (f run)

unfoldable pub update_issue : ℕ → (Issue → Issue) → Exec Issue
unfolding Table.lookup Table.update
update_issue id f = do
  row ← gets (λ r. Table.lookup id r.issues)
  issue ← or_throw row record_not_found
  modify (λ r. record r { issues = Table.update id f r.issues })
  pure (f issue)

-- The counters `tenantsChecked` and `issuesFound`
pub record Tally : Type 0 where
  pub checked : ℕ
  pub found : ℕ

abbrev pub nothing : Tally
nothing = record { checked = 0; found = 0 }

abbrev pub add : Tally → Tally → Tally
add a b = record { checked = a.checked + b.checked; found = a.found + b.found }

infixl 5 ◌⊕◌
-- One part of a run and the next, with what both count
abbrev pub ◌⊕◌ : Exec Tally → Exec Tally → Exec Tally
m ⊕ k = do a ← m; b ← k; pure (add a b)

-- `tenantsChecked++`
abbrev pub count_check : Exec Tally
count_check = pure (record { checked = 1; found = 0 })

-- `create` and `issuesFound++`
unfoldable pub report : Issue → Exec Tally
unfolding create_issue
report issue = do create_issue issue; pure (record { checked = 0; found = 1 })

unfoldable pub report_if : Bool → Issue → Exec Tally
unfolding report
report_if true issue = report issue
report_if false issue = pure nothing

-- `for (const x of xs) { … }`
unfoldable pub for_each {ℓ} : {A : Type ℓ} → (A → Exec Tally) → List A → Exec Tally
for_each body [] = pure nothing
for_each body (x ∷ xs) = body x ⊕ for_each body xs
