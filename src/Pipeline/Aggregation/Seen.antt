-- ===== src/Pipeline/Aggregation/Seen.antt =====
-- What entitlement-check.service.ts reads of the rows of usage-aggregation.consumer.ts for features
-- that are reset monthly.
use meterplex.Prelude.{
  ℕ, ◌+◌, ◌≡◌, ◌∙◌, refl, ap, String, Bool, true, false, Option, none, some, List, [], ◌∷◌, arith,
  ◌==◌, ==_refl, if◌then◌else◌, inl, inr, Bool-cases, eq_iff,
}
use meterplex.Text.{Text, text_eq, text_eq_sound, text_eq_refl}
use meterplex.Calendar.{Date}
use meterplex.Billing.State.{ValidatedEvent, ResetPeriod, Aggregate, Database}
use meterplex.Usage.Entitlement.{find_row, reset_key, usage_from_postgres}
use meterplex.Pipeline.Aggregation.{same_aggregate, upsert_aggregate, contribution, aggregate}
use meterplex.Pipeline.Aggregation.Sums.{aggregates-aggregate}
use meterplex.Pipeline.Aggregation.Keys.{looks_for, monthly_key}

abbrev pub amount_of : Option Aggregate → ℕ
amount_of none = 0
amount_of (some a) = a.amount

-- There is no row yet, or it is the subscription's.
abbrev pub is_own : ℕ → Option Aggregate → Bool
is_own subscription_id none = true
is_own subscription_id (some a) = a.subscription_id == subscription_id

module _ (tenant_id : ℕ) (feature : String) (key : Text) where
  -- Rows with the same key are both looked for or not.
  looks_same :
      (a b : Aggregate)
      → same_aggregate a b ≡ true
      → looks_for tenant_id feature key a ≡ looks_for tenant_id feature key b
  looks_same a b h =
      let t : a.tenant_id ≡ b.tenant_id = ground (arith, h) in
      let f : a.feature_lookup_key ≡ b.feature_lookup_key = (eq_iff _ _).0 (ground (arith, h)) in
      let p : a.period_key ≡ b.period_key = text_eq_sound _ _ (ground (arith, h)) in
      rw (t, f, p) refl

  -- Two rows that are looked for differ in their subscriptions only.
  same_subscription :
      (a b : Aggregate)
      → looks_for tenant_id feature key a ≡ true
      → looks_for tenant_id feature key b ≡ true
      → same_aggregate a b ≡ (a.subscription_id == b.subscription_id)
  same_subscription a b ha hb =
      let ta : a.tenant_id ≡ tenant_id = ground (arith, ha) in
      let tb : b.tenant_id ≡ tenant_id = ground (arith, hb) in
      let fa : a.feature_lookup_key ≡ feature = (eq_iff _ _).0 (ground (arith, ha)) in
      let fb : b.feature_lookup_key ≡ feature = (eq_iff _ _).0 (ground (arith, hb)) in
      let pa : a.period_key ≡ key = text_eq_sound _ _ (ground (arith, ha)) in
      let pb : b.period_key ≡ key = text_eq_sound _ _ (ground (arith, hb)) in
      rw
        (
          ta,
          tb,
          fa,
          fb,
          pa,
          pb,
          ==_refl tenant_id,
          (eq_iff feature feature).1 refl,
          text_eq_refl key,
        )
        refl

  amount-upsert :
      (new : Aggregate) (t : List Aggregate)
      → looks_for tenant_id feature key new ≡ true
      → let found = find_row (looks_for tenant_id feature key) t in
        amount_of (find_row (looks_for tenant_id feature key) (upsert_aggregate new t))
        ≡ amount_of found + (if is_own new.subscription_id found then new.amount else 0)
  unfolding find_row upsert_aggregate
  amount-upsert new [] mine = rw mine (omega arith)
  amount-upsert new (a ∷ rest) mine = elim (Bool-cases (looks_for tenant_id feature key a)) [
    | inl found ↦ elim (Bool-cases (a.subscription_id == new.subscription_id)) [
      | inl own ↦ rw (found, same_subscription a new found mine ∙ own, own, found) refl
      | inr other ↦
          rw (found, same_subscription a new found mine ∙ other, other, found) (omega arith)
    ]
    | inr skipped ↦
        let differs : same_aggregate a new ≡ false = elim (Bool-cases (same_aggregate a new)) [
          | inr d ↦ d
          | inl s ↦ cc (looks_same a new s, mine, skipped)
        ] in
        rw (skipped, differs, skipped) (amount-upsert new rest mine)
  ]

usage_lem :
    (tenant_id : ℕ) (feature : String) (period : Option ResetPeriod) (now : Date) (db : Database)
    → usage_from_postgres tenant_id feature period now db
      ≡ amount_of (find_row (looks_for tenant_id feature (reset_key now period)) db.aggregates)
unfolding usage_from_postgres
usage_lem tenant_id feature period now db =
    on_option (find_row (looks_for tenant_id feature (reset_key now period)) db.aggregates)
  where
    on_option : (o : Option Aggregate) → (elim o [ none ↦ 0 | some a ↦ a.amount ]) ≡ amount_of o
    on_option none = refl
    on_option (some a) = refl

contribution_fits :
    (now : Date) (e : ValidatedEvent)
    → e.timestamp.year ≡ now.year
    → e.timestamp.month ≡ now.month
    → looks_for e.tenant_id e.feature (reset_key now (some ResetPeriod.monthly)) (contribution e)
      ≡ true
unfolding reset_key contribution
contribution_fits now e y m =
    let k : (contribution e).period_key ≡ reset_key now (some ResetPeriod.monthly) =
      monthly_key e ∙ rw (y, m) refl in
    rw
      (
        ==_refl e.tenant_id,
        (eq_iff e.feature e.feature).1 refl,
        ap (λ p. text_eq p (reset_key now (some ResetPeriod.monthly))) k,
        text_eq_refl (reset_key now (some ResetPeriod.monthly)),
      )
      refl

-- If an event of a month is aggregated, the usage that the entitlement checks read from Postgres in
-- this month for the feature, which is reset monthly, grows by the event's amount, except if a row of
-- another subscription of the tenant comes first: then it stays as it is.
pub monthly_usage_seen :
    (now : Date) (e : ValidatedEvent) (db : Database)
    → e.timestamp.year ≡ now.year
    → e.timestamp.month ≡ now.month
    → let found =
        find_row
          (looks_for e.tenant_id e.feature (reset_key now (some ResetPeriod.monthly)))
          db.aggregates in
      usage_from_postgres e.tenant_id e.feature (some ResetPeriod.monthly) now (aggregate e db).1
      ≡ usage_from_postgres e.tenant_id e.feature (some ResetPeriod.monthly) now db
        + (if is_own e.validated_subscription_id found then e.amount else 0)
unfolding contribution
monthly_usage_seen now e db y m =
    let key = reset_key now (some ResetPeriod.monthly) in
    usage_lem e.tenant_id e.feature (some ResetPeriod.monthly) now (aggregate e db).1
    ∙ ap (λ t. amount_of (find_row (looks_for e.tenant_id e.feature key) t))
        (aggregates-aggregate e db)
    ∙ amount-upsert e.tenant_id e.feature key (contribution e) db.aggregates
        (contribution_fits now e y m)
    ∙ rw (usage_lem e.tenant_id e.feature (some ResetPeriod.monthly) now db) refl
