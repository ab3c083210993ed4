-- ===== src/Subscriptions/Current.antt =====
-- The current subscriptions of tenants under the operations of subscriptions.service.ts.
use mathlib.Core.List.{append-nil}
use meterplex.Prelude.{
  ℕ, ◌+◌, ◌≡◌, ◌∙◌, refl, ap, ◌≢◌, true, false, none, some, [], ◌∷◌, ◌++◌, map, arith, ==_refl,
}
use meterplex.Prelude.Table
use meterplex.Prelude.Table.{Table, KeysBelow, lookup-create, lookup_next, find_many-create}
use meterplex.Calendar.{Date}
use meterplex.Billing.State.{PlanStatus, Price, Subscription, Database}
use meterplex.Billing.Monad.{ok}
use meterplex.Subscriptions.{
  CreateSubscription, create, switch, find_price, cancel_current, entitlements_of, snapshot_of,
  new_subscription, is_current_of,
}

-- Cancelling leaves the tenant without a current subscription, and the other tenants alone.
find_many-cancel_current :
    (tenant : ℕ) (now : Date) (t : Table Subscription)
    → Table.find_many (is_current_of tenant) (cancel_current tenant now t) ≡ []
unfolding Table.find_many cancel_current
find_many-cancel_current tenant now [] = refl
find_many-cancel_current tenant now ((id, s) ∷ rest) =
    ground (arith, find_many-cancel_current tenant now rest)

find_many-cancel_other :
    (tenant other : ℕ) (now : Date) (t : Table Subscription)
    → other ≢ tenant
    → Table.find_many (is_current_of other) (cancel_current tenant now t)
      ≡ Table.find_many (is_current_of other) t
unfolding Table.find_many cancel_current
find_many-cancel_other tenant other now [] ne = refl
find_many-cancel_other tenant other now ((id, s) ∷ rest) ne =
    ground (arith, find_many-cancel_other tenant other now rest ne)

lookup-cancel_current :
    (tenant id : ℕ) (now : Date) (t : Table Subscription)
    → Table.lookup id t ≡ none
    → Table.lookup id (cancel_current tenant now t) ≡ none
unfolding Table.lookup cancel_current
lookup-cancel_current tenant id now [] h = refl
lookup-cancel_current tenant id now ((j, s) ∷ rest) h =
    ground (arith, lookup-cancel_current tenant id now rest)

module _ (tenant : ℕ) (dto : CreateSubscription) (now : Date) (db : Database) where
  -- The database after a tenant has been subscribed at a price.
  abbrev pub subscribed : Price → Database
  subscribed price = record db {
    subscriptions =
        Table.create db.next_id (new_subscription tenant dto price now)
          (cancel_current tenant now db.subscriptions);
    snapshots = db.snapshots ++ map (snapshot_of db.next_id) (entitlements_of dto.plan_id db);
    next_id = db.next_id + 1;
  }

  pub create_lem :
      (price : Price)
      → Table.lookup dto.plan_id db.catalog.plans ≡ some PlanStatus.active
      → find_price dto.price_id dto.plan_id db ≡ some price
      → create tenant dto now db
        ≡ (ok (Table.lookup db.next_id (subscribed price).subscriptions), subscribed price)
  unfolding create switch
  create_lem price plan offer = ground arith

  new_is_current :
      (price : Price)
      → is_current_of tenant db.next_id (new_subscription tenant dto price now) ≡ true
  new_is_current price = ground arith

  pub current_after :
      (price : Price)
      → Table.find_many (is_current_of tenant) (subscribed price).subscriptions
        ≡ (db.next_id, new_subscription tenant dto price now) ∷ []
  current_after price =
      find_many-create (is_current_of tenant) db.next_id (new_subscription tenant dto price now)
        (cancel_current tenant now db.subscriptions)
      ∙ rw (find_many-cancel_current tenant now db.subscriptions, new_is_current price) refl

  others_after :
      (price : Price) (other : ℕ)
      → other ≢ tenant
      → Table.find_many (is_current_of other) (subscribed price).subscriptions
        ≡ Table.find_many (is_current_of other) db.subscriptions
  others_after price other ne =
      find_many-create (is_current_of other) db.next_id (new_subscription tenant dto price now)
        (cancel_current tenant now db.subscriptions)
      ∙ rw (find_many-cancel_other tenant other now db.subscriptions ne, foreign)
          (append-nil (Table.find_many (is_current_of other) db.subscriptions))
    where
      foreign : is_current_of other db.next_id (new_subscription tenant dto price now) ≡ false
      foreign = ground arith

  -- If the plan is active, the price is one of its active ones and the keys of the subscriptions are
  -- below the next one, subscribing succeeds with the new subscription, which is then the tenant's
  -- only current one, and leaves the current subscriptions of any other tenant alone.
  pub create_current :
      (price : Price)
      → KeysBelow db.next_id db.subscriptions
      → Table.lookup dto.plan_id db.catalog.plans ≡ some PlanStatus.active
      → find_price dto.price_id dto.plan_id db ≡ some price
      → (other : ℕ) → other ≢ tenant
      → let (r, db') = create tenant dto now db in
        (r ≡ ok (some (new_subscription tenant dto price now)))
        × (Table.find_many (is_current_of tenant) db'.subscriptions
            ≡ (db.next_id, new_subscription tenant dto price now) ∷ [])
        × (Table.find_many (is_current_of other) db'.subscriptions
            ≡ Table.find_many (is_current_of other) db.subscriptions)
  create_current price keys plan offer other ne = rw (create_lem price plan offer) (
    ap ok (
        lookup-create db.next_id db.next_id (new_subscription tenant dto price now)
          (cancel_current tenant now db.subscriptions)
          (lookup-cancel_current tenant db.next_id now db.subscriptions
            (lookup_next db.next_id db.subscriptions keys))
        ∙ rw (==_refl db.next_id) refl),
    current_after price,
    others_after price other ne,
  )
