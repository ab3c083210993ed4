-- ===== src/Billing/Generation.antt =====
-- src/modules/invoices/invoice-generation.service.ts: drafts from usage, for a whole period or
-- for the part of it up to a cancellation. Descriptions of line items are left out.
use meterplex.Prelude.{
  ℕ, ◌+◌, ◌-◌, ◌*◌, ◌/◌, String, Bool, true, false, not, ◌&&◌, ◌||◌, Option, none, some, List, [],
  ◌∷◌, ◌++◌, map, ◌==◌, leb, str_eq, get_or, or_else, if◌then◌else◌, filter,
}
use meterplex.Prelude.Table
use meterplex.Prelude.Table.{Table}
use meterplex.Text.{text_eq, Text, codes, show, pad_start}
use meterplex.Calendar.{Date, day_ms, get_time}
use meterplex.Billing.State.{
  Interval, FeatureType, LimitBehavior, InvoiceStatus, Invoice, Item, LineItem, Price, Subscription,
  Snapshot, Aggregate, Database,
}
use meterplex.Billing.Monad.{Exec, pure, gets, modify, transaction, ◌>>=◌, ◌>>◌}
use meterplex.Billing.Overage.{round_div, calculate_overage, calculate_proration, prorated_amount}
pub mod Totals
pub mod Notes
pub mod Drafts

-- `getPeriodKey`: "2026" or "2026-04"
unfoldable pub period_key : Date → Interval → Text
unfolding show pad_start
period_key start Interval.annually = show start.year
period_key start Interval.monthly =
    show start.year ++ (codes "-" ++ pad_start 2 (show (start.month + 1)))

abbrev pub is_boolean : FeatureType → Bool
is_boolean FeatureType.boolean = true
is_boolean FeatureType.quota = false
is_boolean FeatureType.metered = false

abbrev pub is_quota : FeatureType → Bool
is_quota FeatureType.quota = true
is_quota FeatureType.boolean = false
is_quota FeatureType.metered = false

abbrev pub is_hard : Option LimitBehavior → Bool
is_hard (some LimitBehavior.hard) = true
is_hard (some LimitBehavior.soft) = false
is_hard none = false

-- The two `continue`s: on/off features and hard quotas are not billed.
unfoldable pub is_billed : Snapshot → Bool
is_billed s =
    not (is_boolean s.feature_type) && not (is_quota s.feature_type && is_hard s.limit_behavior)

-- `new Map(aggregates.map(…)).get(key)`: the last aggregate of a feature counts
unfoldable pub map_get : String → List Aggregate → Option ℕ
map_get key [] = none
map_get key (a ∷ rest) =
    or_else (map_get key rest) (if str_eq a.feature_lookup_key key then some a.amount else none)

unfoldable pub feature_item : List Aggregate → ℕ → Snapshot → Item
unfolding map_get calculate_overage
feature_item usage sort_order s =
    let used = get_or (map_get s.feature_lookup_key usage) 0 in
    let overage = calculate_overage used (or_else s.included_amount s.limit) s.overage_price in
    record {
      feature_lookup_key = some s.feature_lookup_key;
      quantity = overage.overage_units;
      unit_price_micro_cents = overage.unit_price_micro_cents;
      amount = overage.total_cents;
      sort_order = sort_order;
    }

-- the loop over the snapshots
unfoldable pub feature_items : List Aggregate → ℕ → List Snapshot → List Item
unfolding is_billed feature_item
feature_items usage sort_order [] = []
feature_items usage sort_order (s ∷ rest) =
    let items = feature_items usage (if is_billed s then sort_order + 1 else sort_order) rest in
    if is_billed s then feature_item usage sort_order s ∷ items else items

-- the line of the subscription fee
unfoldable pub base_item : ℕ → Item
base_item amount = record {
  feature_lookup_key = none;
  quantity = 1;
  unit_price_micro_cents = amount * 100;
  amount = amount;
  sort_order = 0;
}

-- `lineItems.reduce((sum, item) => sum + item.amount, 0)`
unfoldable pub sum_amounts : ℕ → List Item → ℕ
sum_amounts acc [] = acc
sum_amounts acc (i ∷ rest) = sum_amounts (acc + i.amount) rest

-- `findMany({ where: { subscriptionId } })`
unfoldable pub snapshots_of : ℕ → Database → List Snapshot
snapshots_of subscription_id db = filter (λ s. s.subscription_id == subscription_id) db.snapshots

unfoldable pub aggregates_of : ℕ → ℕ → Text → Database → List Aggregate
unfolding text_eq
aggregates_of tenant_id subscription_id key db =
    filter
      (λ a.
        a.tenant_id == tenant_id
        && a.subscription_id == subscription_id
        && text_eq a.period_key key)
      db.aggregates

-- the line items of `generate`; `generateProrated` differs in the fee alone
unfoldable pub line_items_for : ℕ → Subscription → ℕ → Database → List Item
unfolding base_item feature_items snapshots_of aggregates_of period_key
line_items_for subscription_id sub fee db =
    base_item fee
    ∷ feature_items
        (aggregates_of sub.tenant_id subscription_id
          (period_key sub.period_start sub.price.interval) db)
        1 (snapshots_of subscription_id db)

-- The transaction that stores a draft with its line items; it gives the draft's id.
unfoldable pub create_draft : Invoice → List Item → Exec ℕ
create_draft invoice items = transaction (do
  id ← gets (λ db. db.next_id)
  modify (λ db. record db {
    invoices = Table.create id invoice db.invoices;
    line_items = db.line_items ++ map (λ i. record { invoice_id = id; item = i }) items;
    next_id = id + 1;
  })
  pure id)

abbrev pub draft_of : ℕ → Subscription → Date → Option Text → ℕ → Invoice
draft_of subscription_id sub period_end notes total = record {
  tenant_id = sub.tenant_id;
  subscription_id = subscription_id;
  invoice_number = none;
  status = InvoiceStatus.draft;
  currency = sub.price.currency;
  subtotal = total;
  total = total;
  period_start = sub.period_start;
  period_end = period_end;
  due_date = none;
  finalized_at = none;
  paid_at = none;
  voided_at = none;
  notes = notes;
}

-- The result is what `findUnique` gives for the new invoice.
unfoldable pub generate : ℕ → Subscription → Exec (Option (ℕ × Invoice))
unfolding line_items_for sum_amounts create_draft
generate subscription_id sub = do
  items ← gets (line_items_for subscription_id sub sub.price.amount)
  id ← create_draft (draft_of subscription_id sub sub.period_end none (sum_amounts 0 items)) items
  found ← gets (λ db. Table.lookup id db.invoices)
  pure (elim found [ none ↦ none | some inv ↦ some (id, inv) ])

-- `Math.round((a - b) / d)` printed, where `a` may be the earlier of the two
unfoldable pub show_days : ℕ → ℕ → Text
unfolding show round_div
show_days a b =
    if leb b a
    then show (round_div (a - b) day_ms)
    else (let n = (2 * (b - a) + day_ms - 1) / (2 * day_ms) in
        if n == 0 then show 0 else codes "-" ++ show n)

-- `cancelledAt.toISOString().split('T')[0]`
unfoldable pub iso_date : Date → Text
unfolding show pad_start
iso_date d =
    pad_start 4 (show d.year)
    ++ (codes "-" ++ (pad_start 2 (show (d.month + 1)) ++ (codes "-" ++ pad_start 2 (show d.day))))

unfoldable pub prorated_notes : Date → Date → Date → Text
unfolding iso_date show_days get_time
prorated_notes period_start period_end cancelled_at =
    codes "Prorated invoice - cancelled on "
    ++ (iso_date cancelled_at
        ++ (codes " ("
            ++ (show_days (get_time cancelled_at) (get_time period_start)
                ++ (codes "/"
                    ++ (show_days (get_time period_end) (get_time period_start)
                        ++ codes " days used)")))))

unfoldable pub generate_prorated : ℕ → Subscription → Date → Exec (Option (ℕ × Invoice))
unfolding line_items_for sum_amounts create_draft prorated_notes calculate_proration prorated_amount
generate_prorated subscription_id sub cancelled_at = do
  items ← gets (
      line_items_for subscription_id sub (
        prorated_amount sub.price.amount
          (calculate_proration sub.period_start sub.period_end cancelled_at)))
  id ←
      create_draft
        (draft_of subscription_id sub cancelled_at
          (some (prorated_notes sub.period_start sub.period_end cancelled_at))
          (sum_amounts 0 items))
        items
  found ← gets (λ db. Table.lookup id db.invoices)
  pure (elim found [ none ↦ none | some inv ↦ some (id, inv) ])
