-- ===== src/Subscriptions.antt =====
-- src/modules/subscriptions/subscriptions.service.ts: subscribing a tenant to a plan, and cancelling.
-- The slug of a plan, which only an error text holds, is left out.
use meterplex.Prelude.{
  ℕ, ◌+◌, ◌*◌, String, Bool, true, false, not, ◌&&◌, Option, none, some, List, [], ◌∷◌, ◌++◌, map,
  ◌==◌, leb, if◌then◌else◌, filter,
}
use meterplex.Prelude.Table
use meterplex.Prelude.Table.{Table}
use meterplex.Calendar.{Date, day_ms, get_time, next_month, next_year}
use meterplex.Billing.State.{
  PlanStatus, SubscriptionStatus, Interval, Price, PlanPrice, Entitlement, Subscription, Snapshot,
  Database,
}
use meterplex.Billing.Monad.{
  Exec, plan_not_found, plan_not_active, price_not_found, subscription_not_found,
  no_active_subscription, pure, gets, or_throw, modify, throw_if, transaction, ◌>>=◌, ◌>>◌,
}
use meterplex.Billing.Period.{is_current, update_subscription}
pub mod Current
pub mod Entitled
mod Tests

-- `CreateSubscriptionDto`; no trial is 0 days
pub record CreateSubscription : Type 0 where
  pub plan_id : ℕ
  pub price_id : ℕ
  pub trial_days : ℕ

abbrev pub is_active_plan : PlanStatus → Bool
is_active_plan PlanStatus.active = true
is_active_plan PlanStatus.archived = false

unfoldable pub find_price : ℕ → ℕ → Database → Option Price
unfolding Table.lookup
find_price price_id plan_id db = elim (Table.lookup price_id db.catalog.prices) [
  | none ↦ none
  | some p ↦ if p.plan_id == plan_id && p.is_active then some p.price else none
]

unfoldable pub calculate_period_end : Date → Interval → Date
unfolding next_month next_year
calculate_period_end start Interval.annually = next_year start
calculate_period_end start Interval.monthly = next_month start

-- `updateMany` on the subscriptions of the tenant that are current
unfoldable pub cancel_current : ℕ → Date → Table Subscription → Table Subscription
cancel_current tenant_id now [] = []
cancel_current tenant_id now ((id, s) ∷ rest) =
    let others = cancel_current tenant_id now rest in
    (if s.tenant_id == tenant_id && is_current s.status
      then (id, record s { status = SubscriptionStatus.cancelled; cancelled_at = some now })
      else (id, s))
    ∷ others

abbrev pub snapshot_of : ℕ → Entitlement → Snapshot
snapshot_of subscription_id e = record {
  subscription_id = subscription_id;
  feature_lookup_key = e.lookup_key;
  feature_type = e.type;
  value = e.value;
  limit = e.limit;
  limit_behavior = e.limit_behavior;
  overage_price = e.overage_price;
  included_amount = e.included_amount;
  reset_period = e.reset_period;
}

unfoldable pub entitlements_of : ℕ → Database → List Entitlement
entitlements_of plan_id db = filter (λ e. e.plan_id == plan_id) db.catalog.entitlements

abbrev pub new_subscription : ℕ → CreateSubscription → Price → Date → Subscription
new_subscription tenant_id dto price now = record {
  tenant_id = tenant_id;
  plan_id = dto.plan_id;
  price_id = dto.price_id;
  price = price;
  status = if dto.trial_days == 0 then SubscriptionStatus.active else SubscriptionStatus.trialing;
  period_start = now;
  period_end = calculate_period_end now price.interval;
  billing_anchor = if leb now.day 28 then now.day else 28;
  trial_ends_at =
      if dto.trial_days == 0 then none else some (get_time now + dto.trial_days * day_ms);
  cancelled_at = none;
}

module _ (tenant_id : ℕ) (dto : CreateSubscription) (now : Date) where
  -- the transaction: the old subscription goes, the new one comes with its snapshots
  unfoldable pub switch : Price → List Entitlement → Exec ℕ
  unfolding cancel_current calculate_period_end get_time
  switch price entitlements = transaction (do
    modify (λ db. record db { subscriptions = cancel_current tenant_id now db.subscriptions })
    id ← gets (λ db. db.next_id)
    modify (λ db. record db {
      subscriptions = Table.create id (new_subscription tenant_id dto price now) db.subscriptions;
      next_id = id + 1;
    })
    modify (λ db. record db { snapshots = db.snapshots ++ map (snapshot_of id) entitlements })
    pure id)

  unfoldable pub create : Exec (Option Subscription)
  unfolding Table.lookup find_price entitlements_of switch
  create = do
    found ← gets (λ db. Table.lookup dto.plan_id db.catalog.plans)
    plan ← or_throw found plan_not_found
    throw_if (not (is_active_plan plan)) plan_not_active
    offered ← gets (find_price dto.price_id dto.plan_id)
    price ← or_throw offered price_not_found
    entitlements ← gets (entitlements_of dto.plan_id)
    id ← switch price entitlements
    gets (λ db. Table.lookup id db.subscriptions)

-- the `where` of the reads of a tenant's current subscription
abbrev pub is_current_of : ℕ → ℕ → Subscription → Bool
is_current_of tenant_id _ s = s.tenant_id == tenant_id && is_current s.status

unfoldable pub find_active_for_tenant : ℕ → Exec (ℕ × Subscription)
unfolding Table.find_first
find_active_for_tenant tenant_id = do
  row ← gets (λ db. Table.find_first (is_current_of tenant_id) db.subscriptions)
  or_throw row no_active_subscription

-- the row with this id, if it is the tenant's and current
unfoldable pub select_current : ℕ → ℕ → Database → Option Subscription
unfolding Table.lookup
select_current tenant_id id db = elim (Table.lookup id db.subscriptions) [
  | none ↦ none
  | some s ↦ if is_current_of tenant_id id s then some s else none
]

unfoldable pub cancel : ℕ → ℕ → Date → Exec (Unit {0})
unfolding select_current update_subscription
cancel tenant_id id now = do
  row ← gets (select_current tenant_id id)
  or_throw row subscription_not_found
  update_subscription id
      (λ s. record s { cancelled_at = some now; status = SubscriptionStatus.cancelled })
