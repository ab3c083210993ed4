-- ===== src/Reconciliation/Usage.antt =====
-- The comparison of usage events with aggregates in runReconciliation. `source` is the `source` of an
-- event's metadata, which the database of the model does not hold.
use meterplex.Prelude.{
  ℕ, ◌+◌, Bool, true, false, not, ◌&&◌, ◌||◌, String, Option, none, some, List, [], ◌∷◌, ◌==◌, ltb,
  if◌then◌else◌, str_eq, get_or, filter,
}
use meterplex.Prelude.Table.{Table}
use meterplex.Text.{Text, codes, text_eq}
use meterplex.Billing.State.{
  UsageEvent, UsageEventStatus, Aggregate, Subscription, SubscriptionStatus, Database,
}
use meterplex.Reconciliation.State.{
  Issue, IssueStatus, Category, Exec, Tally, minus, ◌⊕◌, count_check, report_if, for_each,
}

abbrev pub is_aggregated : UsageEventStatus → Bool
is_aggregated UsageEventStatus.aggregated = true
is_aggregated other = false

-- `metadata->>'source' != 'seed'`, which is null, and so not met, where there is no source
abbrev pub is_not_seed : Option String → Bool
is_not_seed none = false
is_not_seed (some s) = not (str_eq s "seed")

abbrev pub Sums : Type 0
Sums = List (String × ℕ)

-- `GROUP BY feature_lookup_key` with `SUM(amount)`
unfoldable pub add_to : String → ℕ → Sums → Sums
add_to key n [] = (key, n) ∷ []
add_to key n ((k, m) ∷ sums) =
    if str_eq k key then (k, m + n) ∷ sums else (k, m) ∷ add_to key n sums

module _ (source : ℕ → Option String) (tenant : ℕ) where
  abbrev pub is_expected : ℕ → UsageEvent → Bool
  is_expected id e = e.tenant_id == tenant && is_aggregated e.status && is_not_seed (source id)

  unfoldable pub expected_of : Table UsageEvent → Sums
  unfolding add_to
  expected_of [] = []
  expected_of ((id, e) ∷ rows) =
      let rest = expected_of rows in
      if is_expected id e then add_to e.feature_lookup_key e.amount rest else rest

-- `usageAggregate.findMany({ where: { tenantId, periodKey } })`
unfoldable pub aggregates_of : ℕ → Text → List Aggregate → List Aggregate
unfolding text_eq
aggregates_of tenant period rows =
    filter (λ a. a.tenant_id == tenant && text_eq a.period_key period) rows

-- `new Map(aggregates.map(…))`: a later row replaces an earlier one of the same feature
unfoldable pub actual_of : String → List Aggregate → Option ℕ
actual_of key [] = none
actual_of key (a ∷ rows) =
    let later = actual_of key rows in
    elim later [
      | some n ↦ some n
      | none ↦ if str_eq a.feature_lookup_key key then some a.amount else none
    ]

unfoldable pub has_events : Sums → String → Bool
has_events [] key = false
has_events ((k, n) ∷ sums) key = str_eq k key || has_events sums key

module _ (run tenant : ℕ) (period : Text) where
  abbrev pub usage_issue : String → ℕ → ℕ → Issue
  usage_issue key expected actual = record {
    run_id = run;
    category = Category.usage;
    tenant_id = tenant;
    feature_lookup_key = codes key;
    period_key = period;
    expected = expected;
    actual = actual;
    difference = minus expected actual;
    status = IssueStatus.opened;
    notes = none;
  }

  -- `for (const row of expected)`
  unfoldable pub compare_row : List Aggregate → String × ℕ → Exec Tally
  unfolding actual_of report_if minus
  compare_row aggregates (key, total) =
      let actual = get_or (actual_of key aggregates) 0 in
      report_if (not (total == actual)) (usage_issue key total actual) ⊕ count_check

  abbrev pub is_phantom : Sums → Aggregate → Bool
  is_phantom expected a = not (has_events expected a.feature_lookup_key) && ltb 0 a.amount

  -- `for (const agg of aggregates)`
  unfoldable pub find_phantom : Sums → Aggregate → Exec Tally
  unfolding has_events report_if minus
  find_phantom expected a =
      report_if (is_phantom expected a) (usage_issue a.feature_lookup_key 0 a.amount)

  unfoldable pub compare_tenant : Sums → List Aggregate → Exec Tally
  unfolding compare_row find_phantom for_each
  compare_tenant expected aggregates =
      for_each (compare_row aggregates) expected ⊕ for_each (find_phantom expected) aggregates

abbrev pub is_active : SubscriptionStatus → Bool
is_active SubscriptionStatus.active = true
is_active SubscriptionStatus.trialing = true
is_active other = false

unfoldable pub mem : ℕ → List ℕ → Bool
mem n [] = false
mem n (m ∷ ms) = m == n || mem n ms

-- `findMany({ where: { status }, distinct: ['tenantId'] })`
unfoldable pub active_tenants : Table Subscription → List ℕ
unfolding mem
active_tenants [] = []
active_tenants ((id, sub) ∷ rows) =
    let rest = active_tenants rows in
    if is_active sub.status && not (mem sub.tenant_id rest) then sub.tenant_id ∷ rest else rest

unfoldable pub check_usage : (ℕ → Option String) → Database → ℕ → Text → Exec Tally
unfolding active_tenants expected_of aggregates_of compare_tenant for_each
check_usage source db run period =
    for_each
      (λ tenant.
        compare_tenant run tenant period (expected_of source tenant db.usage_events)
          (aggregates_of tenant period db.aggregates))
      (active_tenants db.subscriptions)
