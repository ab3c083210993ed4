-- ===== src/Billing/Generation/Totals.antt =====
-- The sum of an invoice's lines in invoice-generation.service.ts.
use native.Mathlib.Nat.{add_assoc}
use meterplex.Prelude.{
  ℕ, ◌+◌, ◌-◌, ◌*◌, ◌≡◌, refl, Bool, true, false, not, ◌&&◌, Option, none, some, List, [], ◌∷◌,
  arith, get_or, or_else, if◌then◌else◌, Bool-cases, inl, inr, ◌∙◌,
}
use meterplex.Billing.State.{
  FeatureType, LimitBehavior, Subscription, Snapshot, Aggregate, Database,
}
use meterplex.Billing.Overage.{round_div}
use meterplex.Billing.Generation.{
  period_key, is_boolean, is_quota, is_hard, is_billed, map_get, feature_item, feature_items,
  sum_amounts, snapshots_of, aggregates_of, line_items_for,
}

-- Metered features and the quotas that are not hard have a price.
abbrev pub is_priced : FeatureType → Option LimitBehavior → Bool
is_priced FeatureType.boolean behavior = false
is_priced FeatureType.quota none = true
is_priced FeatureType.quota (some LimitBehavior.soft) = true
is_priced FeatureType.quota (some LimitBehavior.hard) = false
is_priced FeatureType.metered behavior = true

is_priced-is_billed : (s : Snapshot) → is_priced s.feature_type s.limit_behavior ≡ is_billed s
unfolding is_billed
is_priced-is_billed s = by_type s.feature_type s.limit_behavior
  where
    by_type :
        (type : FeatureType) (behavior : Option LimitBehavior)
        → is_priced type behavior
          ≡ (not (is_boolean type) && not (is_quota type && is_hard behavior))
    by_type FeatureType.boolean behavior = refl
    by_type FeatureType.quota none = refl
    by_type FeatureType.quota (some LimitBehavior.soft) = refl
    by_type FeatureType.quota (some LimitBehavior.hard) = refl
    by_type FeatureType.metered none = refl
    by_type FeatureType.metered (some behavior) = refl

-- What one snapshot adds: the units past the included amount (or the limit) at the overage price,
-- a hundredth of a cent each unit of it, in whole cents, and nothing for a feature without a price.
abbrev pub charge_of : List Aggregate → Snapshot → ℕ
charge_of usage s =
    if is_priced s.feature_type s.limit_behavior
    then round_div
        ((get_or (map_get s.feature_lookup_key usage) 0
            - get_or (or_else s.included_amount s.limit) 0)
          * get_or s.overage_price 0)
        100
    else 0

abbrev pub charges : List Aggregate → List Snapshot → ℕ
charges usage [] = 0
charges usage (s ∷ rest) = charge_of usage s + charges usage rest

sum_amounts-feature_items :
    (usage : List Aggregate) (acc n : ℕ) (snapshots : List Snapshot)
    → sum_amounts acc (feature_items usage n snapshots) ≡ acc + charges usage snapshots
unfolding sum_amounts feature_items
sum_amounts-feature_items usage acc n [] = omega arith
sum_amounts-feature_items usage acc n (s ∷ rest) = elim (Bool-cases (is_billed s)) [
  | inl billed ↦
      rw (is_priced-is_billed s, billed)
        (sum_amounts-feature_items usage (acc + (feature_item usage n s).amount) (n + 1) rest
          ∙ add_assoc acc _ (charges usage rest))
  | inr skipped ↦
      rw (is_priced-is_billed s, skipped)
        (omega (arith, sum_amounts-feature_items usage acc n rest))
]

-- The lines of an invoice add up to the fee and, for each snapshot of the subscription that is
-- metered or a quota that is not hard, the overage at a hundredth of a cent for each unit of the
-- overage price, rounded to whole cents.
pub line_items_total :
    (id fee : ℕ) (sub : Subscription) (db : Database)
    → sum_amounts 0 (line_items_for id sub fee db)
      ≡ fee
        + charges
            (aggregates_of sub.tenant_id id (period_key sub.period_start sub.price.interval) db)
            (snapshots_of id db)
unfolding line_items_for sum_amounts
line_items_total id fee sub db =
    let usage =
      aggregates_of sub.tenant_id id (period_key sub.period_start sub.price.interval) db in
    sum_amounts-feature_items usage (0 + fee) 1 (snapshots_of id db) ∙ omega arith
