-- ===== src/Pipeline/Aggregation/Keys.antt =====
-- The period keys that usage-aggregation.consumer.ts writes and entitlement-check.service.ts reads.
use meterplex.Prelude.{
  ℕ, ◌+◌, ◌≡◌, ◌∙◌, refl, ap, String, Bool, true, false, ◌&&◌, Option, none, some, List, [], ◌∷◌,
  ◌++◌, arith, ◌==◌, str_eq, inl, inr, Bool-cases, All,
}
use meterplex.Text.{Text, text_eq, text_eq_sound, codes, show, pad_start}
use meterplex.Text.Decimal.{IsDigit, show-digits}
use meterplex.Calendar.{Date}
use meterplex.Billing.State.{ValidatedEvent, FeatureType, ResetPeriod, Aggregate, Database}
use meterplex.Usage.Entitlement.{find_row, reset_key, usage_from_postgres}
use meterplex.Pipeline.Aggregation.{
  same_aggregate, upsert_aggregate, contribution, calculate_period, feature_type_text, aggregate,
}
use meterplex.Pipeline.Aggregation.Sums.{aggregates-aggregate, aggregate_all}

-- No dash in a text.
abbrev NoDash : ℕ → Type 0
NoDash c = (c == b'-') ≡ false

digits-NoDash : (t : Text) → All IsDigit t → All NoDash t
digits-NoDash [] h = tt
digits-NoDash (c ∷ t) (d, h) = (ground (arith, d), digits-NoDash t h)

dashed_differs : (x y t : Text) → All NoDash t → text_eq (x ++ (b'-' ∷ y)) t ≡ false
unfolding text_eq
dashed_differs [] y [] h = refl
dashed_differs [] y (c ∷ t) (d, h) = ground (arith, d)
dashed_differs (a ∷ x) y [] h = refl
dashed_differs (a ∷ x) y (c ∷ t) (d, h) = ground (arith, dashed_differs x y t h)

-- The key of a message is that of its month, whatever its feature.
pub monthly_key :
    (e : ValidatedEvent)
    → (contribution e).period_key
      ≡ show e.timestamp.year ++ (codes "-" ++ pad_start 2 (show (e.timestamp.month + 1)))
unfolding contribution calculate_period
monthly_key e = on_type e.feature_type
  where
    on_type :
        (f : FeatureType)
        → calculate_period e.timestamp (feature_type_text f)
          ≡ show e.timestamp.year ++ (codes "-" ++ pad_start 2 (show (e.timestamp.month + 1)))
    on_type FeatureType.boolean = refl
    on_type FeatureType.quota = refl
    on_type FeatureType.metered = refl

-- A search by the key passes over a row that an upsert changes or adds, if it passes over its key.
module _ (tenant_id : ℕ) (feature : String) (key : Text) where
  abbrev pub looks_for : Aggregate → Bool
  looks_for a =
      a.tenant_id == tenant_id && str_eq a.feature_lookup_key feature && text_eq a.period_key key

  find_row-upsert :
      (new : Aggregate) (t : List Aggregate)
      → text_eq new.period_key key ≡ false
      → find_row looks_for (upsert_aggregate new t) ≡ find_row looks_for t
  unfolding find_row upsert_aggregate
  find_row-upsert new [] other = ground (arith, other)
  find_row-upsert new (a ∷ rest) other = elim (Bool-cases (same_aggregate a new)) [
    | inr differs ↦ rw (differs, find_row-upsert new rest other) refl
    | inl same ↦
        let p : a.period_key ≡ new.period_key = text_eq_sound _ _ (ground (arith, same)) in
        let miss : text_eq a.period_key key ≡ false = rw p other in ground (arith, same, miss)
  ]

-- The keys of features that are reset yearly or never.
abbrev pub is_long : Option ResetPeriod → Bool
is_long (some ResetPeriod.monthly) = false
is_long (some ResetPeriod.annually) = true
is_long (some ResetPeriod.never) = true
is_long none = true

lifetime-NoDash : All NoDash (codes "lifetime")
lifetime-NoDash = (refl, (refl, (refl, (refl, (refl, (refl, (refl, (refl, tt))))))))

reset_key-NoDash :
    (now : Date) (period : Option ResetPeriod)
    → is_long period ≡ true
    → All NoDash (reset_key now period)
unfolding reset_key
reset_key-NoDash now (some ResetPeriod.monthly) long = cc
reset_key-NoDash now (some ResetPeriod.annually) long =
    digits-NoDash (show now.year) (show-digits now.year)
reset_key-NoDash now (some ResetPeriod.never) long = lifetime-NoDash
reset_key-NoDash now none long = lifetime-NoDash

-- The usage that the entitlement checks read from Postgres for a feature that is reset yearly or
-- never stays as it is, whatever messages are aggregated.
long_usage_unseen :
    (tenant_id : ℕ) (feature : String) (period : Option ResetPeriod) (now : Date)
    (es : List ValidatedEvent) (db : Database)
    → is_long period ≡ true
    → usage_from_postgres tenant_id feature period now (aggregate_all es db)
      ≡ usage_from_postgres tenant_id feature period now db
unfolding usage_from_postgres aggregate_all
long_usage_unseen tenant_id feature period now [] db long = refl
long_usage_unseen tenant_id feature period now (e ∷ es) db long =
    long_usage_unseen tenant_id feature period now es (aggregate e db).1 long
    ∙ ap (λ (o : Option Aggregate). elim o [ none ↦ 0 | some a ↦ a.amount ])
        (ap (find_row (looks_for tenant_id feature (reset_key now period)))
            (aggregates-aggregate e db)
          ∙ find_row-upsert tenant_id feature (reset_key now period) (contribution e) db.aggregates
              (ap (λ k. text_eq k (reset_key now period)) (monthly_key e)
                ∙ dashed_differs (show e.timestamp.year) _ (reset_key now period)
                    (reset_key-NoDash now period long)))
