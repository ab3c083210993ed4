-- ===== src/Subscriptions/Entitled.antt =====
-- What a tenant may use after the operations of subscriptions.service.ts.
use mathlib.Core.Option
use meterplex.Prelude.{
  ℕ, ◌<◌, ◌≡◌, ◌∙◌, refl, ap, String, Bool, true, ◌&&◌, Option, none, some, List, [], ◌∷◌, ◌++◌,
  map, arith, ◌==◌, str_eq, All,
}
use meterplex.Prelude.Table
use meterplex.Prelude.Table.{
  Table, find_first_lem, head_of, find_first_holds, find_many-update_gone,
}
use meterplex.Calendar.{Date}
use meterplex.Billing.State.{
  PlanStatus, SubscriptionStatus, Price, Entitlement, Subscription, Snapshot, Database,
}
use meterplex.Billing.Monad.{ok}
use meterplex.Usage.Entitlement.{find_row, get_snapshot}
use meterplex.Subscriptions.{
  CreateSubscription, create, find_price, entitlements_of, snapshot_of, is_current_of, cancel,
  select_current, new_subscription,
}
use meterplex.Subscriptions.Current.{subscribed, create_lem, current_after}

-- the condition of a feature's snapshot
abbrev for_feature : ℕ → String → Snapshot → Bool
for_feature id feature s = s.subscription_id == id && str_eq s.feature_lookup_key feature

-- Old snapshots belong to other subscriptions.
find_row-old :
    (id : ℕ) (feature : String) (old new : List Snapshot)
    → All (λ s. s.subscription_id < id) old
    → find_row (for_feature id feature) (old ++ new) ≡ find_row (for_feature id feature) new
unfolding find_row
find_row-old id feature [] new below = refl
find_row-old id feature (s ∷ old) new (b, below) =
    ground (arith, find_row-old id feature old new below)

find_row-map :
    (id : ℕ) (feature : String) (es : List Entitlement)
    → find_row (for_feature id feature) (map (snapshot_of id) es)
      ≡ Option.map (snapshot_of id) (find_row (λ e. str_eq e.lookup_key feature) es)
unfolding find_row
find_row-map id feature [] = refl
find_row-map id feature (e ∷ es) = ground (arith, find_row-map id feature es)

-- What the checks see, from the search for the current subscription.
get_snapshot_lem :
    (tenant : ℕ) (feature : String) (db : Database) (o : Option (ℕ × Subscription))
    → Table.find_first (is_current_of tenant) db.subscriptions ≡ o
    → get_snapshot tenant feature db
      ≡ elim o [ none ↦ none | some row ↦ find_row (for_feature row.0 feature) db.snapshots ]
unfolding get_snapshot
get_snapshot_lem tenant feature db o h =
    ap
      (λ (r : Option (ℕ × Subscription)). elim r [
        | none ↦ none
        | some row ↦ find_row (for_feature row.0 feature) db.snapshots
      ])
      h

module _ (tenant : ℕ) (dto : CreateSubscription) (now : Date) (db : Database) where
  -- If the plan is active, the price is one of its active ones and no snapshot names a subscription
  -- still to come, the entitlement checks of the tenant see, after it has subscribed, what the plan
  -- has for the feature at that moment, and nothing if the plan has nothing.
  pub create_then_snapshot :
      (price : Price) (feature : String)
      → Table.lookup dto.plan_id db.catalog.plans ≡ some PlanStatus.active
      → find_price dto.price_id dto.plan_id db ≡ some price
      → All (λ s. s.subscription_id < db.next_id) db.snapshots
      → get_snapshot tenant feature (create tenant dto now db).1
        ≡ Option.map
            (snapshot_of db.next_id)
            (find_row (λ e. str_eq e.lookup_key feature) (entitlements_of dto.plan_id db))
  create_then_snapshot price feature plan offer below =
      rw (create_lem tenant dto now db price plan offer) (
        get_snapshot_lem tenant feature (subscribed tenant dto now db price)
          (some (db.next_id, new_subscription tenant dto price now))
          (find_first_lem (is_current_of tenant) (subscribed tenant dto now db price).subscriptions
            ∙ ap head_of (current_after tenant dto now db price))
        ∙ find_row-old db.next_id feature db.snapshots _ below
        ∙ find_row-map db.next_id feature (entitlements_of dto.plan_id db))

abbrev cancelled_row : Date → Subscription → Subscription
cancelled_row now s = record s { cancelled_at = some now; status = SubscriptionStatus.cancelled }

cancel_lem :
    (tenant id : ℕ) (now : Date) (s : Subscription) (db : Database)
    → Table.lookup id db.subscriptions ≡ some s
    → is_current_of tenant id s ≡ true
    → cancel tenant id now db
      ≡ (ok tt, record db { subscriptions = Table.update id (cancelled_row now) db.subscriptions })
unfolding cancel select_current
cancel_lem tenant id now s db row fits = ground arith

-- A subscription is not current once it is cancelled: the entitlement checks of a tenant whose only
-- current subscription is cancelled see nothing, although its period has not ended.
pub cancel_then_snapshot :
    (tenant id : ℕ) (now : Date) (s : Subscription) (feature : String) (db : Database)
    → Table.lookup id db.subscriptions ≡ some s
    → Table.find_many (is_current_of tenant) db.subscriptions ≡ (id, s) ∷ []
    → let (r, db') = cancel tenant id now db in
      (r ≡ ok tt) × (get_snapshot tenant feature db' ≡ none)
cancel_then_snapshot tenant id now s feature db row only =
    let found : Table.find_first (is_current_of tenant) db.subscriptions ≡ some (id, s) =
      find_first_lem (is_current_of tenant) db.subscriptions ∙ ap head_of only in
    let fits : is_current_of tenant id s ≡ true =
      find_first_holds (is_current_of tenant) db.subscriptions id s found in
    rw (cancel_lem tenant id now s db row fits) (
      refl,
      get_snapshot_lem tenant feature _ none (
          find_first_lem (is_current_of tenant)
            (Table.update id (cancelled_row now) db.subscriptions)
          ∙ ap head_of (
              find_many-update_gone (is_current_of tenant) id s (cancelled_row now) db.subscriptions
                (ground arith) fits row only)),
    )
