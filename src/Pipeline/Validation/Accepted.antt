-- ===== src/Pipeline/Validation/Accepted.antt =====
-- When usage-validation.consumer.ts sends an event on.
use meterplex.Prelude.{
  ℕ, ◌<◌, ◌≡◌, ◌∙◌, refl, sym, ap, String, Bool, true, false, not, ◌&&◌, ◌||◌, Option, none, some,
  arith, ◌==◌, str_eq, if◌then◌else◌,
}
use meterplex.Prelude.Table
use meterplex.Calendar.{Date}
use meterplex.Billing.State.{RawEvent, ValidatedEvent, Subscription, Snapshot, Database}
use meterplex.Billing.Generation.{is_boolean}
use meterplex.Billing.Period.{is_current}
use meterplex.Usage.Entitlement.{find_row}
use meterplex.Pipeline.Validation.{
  Verdict, is_uuid, is_active_tenant, was_handled, is_out_of_window, validated_event, check_fields,
  check_window, check_subscription, check_feature, verdict,
}

-- Three guards that are passed.
three_passed :
    (a b c : Bool) (w : Verdict) (v : ValidatedEvent)
    → (if a
        then Verdict.rejected
        else if b
        then Verdict.rejected
        else if c
        then Verdict.rejected
        else w)
      ≡ Verdict.valid v
    → (a ≡ false) × (b ≡ false) × (c ≡ false) × (w ≡ Verdict.valid v)
three_passed true b c w v h = cc
three_passed false true c w v h = cc
three_passed false false true w v h = cc
three_passed false false false w v h = (refl, refl, refl, h)

both_false : (a b : Bool) → (a || b) ≡ false → (a ≡ false) × (b ≡ false)
both_false true b h = cc
both_false false b h = (refl, h)

negated_false : (a : Bool) → not a ≡ false → a ≡ true
negated_false true h = refl
negated_false false h = cc

is_positive : (n : ℕ) → (n == 0) ≡ false → 0 < n
is_positive n h = ground arith

not_zero : (n : ℕ) → 0 < n → (n == 0) ≡ false
not_zero n h = ground arith

module _ (now : Date) (e : RawEvent) (db : Database) where
  -- Everything a message needs to be sent on as `v`.
  pub record Acceptable (v : ValidatedEvent) : Type 0 where
    pub id : ℕ
    pub feature : String
    pub at : Date
    pub subscription : ℕ × Subscription
    pub snapshot : Snapshot
    pub has_id : e.id ≡ some id
    pub has_feature : e.feature ≡ some feature
    pub has_time : e.timestamp ≡ some at
    pub named : str_eq feature "" ≡ false
    pub uuid : is_uuid e.event_id ≡ true
    pub tenant_active : is_active_tenant (Table.lookup e.tenant_id db.catalog.tenants) ≡ true
    pub in_window : is_out_of_window now at ≡ false
    pub unhandled : was_handled e.event_id db ≡ false
    pub subscribed :
        Table.find_first (λ _ s. s.tenant_id == e.tenant_id && is_current s.status) db.subscriptions
        ≡ some subscription
    pub entitled :
        find_row
          (λ s. s.subscription_id == subscription.0 && str_eq s.feature_lookup_key feature)
          db.snapshots
        ≡ some snapshot
    pub countable : is_boolean snapshot.feature_type ≡ false
    pub positive : 0 < e.amount
    pub sent_as : v ≡ validated_event now e db id feature at subscription.0 snapshot

  module _ (v : ValidatedEvent) (id : ℕ) (feature : String) where
    from_feature :
        (t : Date) (sub : ℕ) (o : Option Snapshot)
        → check_feature now e db id feature t sub o ≡ Verdict.valid v
        → (s : Snapshot) × (o ≡ some s)
          × (is_boolean s.feature_type ≡ false)
          × (0 < e.amount)
          × (v ≡ validated_event now e db id feature t sub s)
    unfolding check_feature
    from_feature t sub none h = cc
    from_feature t sub (some s) h = (s, refl, ground arith, ground arith, ground arith)

    from_subscription :
        (t : Date) (o : Option (ℕ × Subscription))
        → (elim o [
          | none ↦ Verdict.rejected
          | some row ↦ check_feature now e db id feature t row.0 (
              find_row
                (λ s. s.subscription_id == row.0 && str_eq s.feature_lookup_key feature)
                db.snapshots)
        ])
          ≡ Verdict.valid v
        → (row : ℕ × Subscription) × (o ≡ some row)
          × (check_feature now e db id feature t row.0 (
                find_row
                  (λ s. s.subscription_id == row.0 && str_eq s.feature_lookup_key feature)
                  db.snapshots)
              ≡ Verdict.valid v)
    from_subscription t none h = cc
    from_subscription t (some row) h = (row, refl, h)

    from_window :
        (o : Option Date)
        → check_window now e db id feature o ≡ Verdict.valid v
        → (t : Date) × (o ≡ some t)
          × (is_out_of_window now t ≡ false)
          × (was_handled e.event_id db ≡ false)
          × (check_subscription now e db id feature t ≡ Verdict.valid v)
    unfolding check_window
    from_window none h = cc
    from_window (some t) h = (t, refl, ground arith, ground arith, ground arith)

  from_fields :
      (v : ValidatedEvent) (oi : Option ℕ) (of : Option String)
      → check_fields now e db oi of ≡ Verdict.valid v
      → (id : ℕ) × (feature : String) × (oi ≡ some id)
        × (of ≡ some feature)
        × (str_eq feature "" ≡ false)
        × (is_uuid e.event_id ≡ true)
        × (is_active_tenant (Table.lookup e.tenant_id db.catalog.tenants) ≡ true)
        × (0 < e.amount)
        × (check_window now e db id feature e.timestamp ≡ Verdict.valid v)
  unfolding check_fields
  from_fields v none of h = cc
  from_fields v (some id) none h = cc
  from_fields v (some id) (some feature) h =
      let (named_some, u, a, w) = three_passed _ _ _ _ v h in
      let (named, some_amount) = both_false (str_eq feature "") (e.amount == 0) named_some in
      (
        id,
        feature,
        refl,
        refl,
        named,
        negated_false _ u,
        negated_false _ a,
        is_positive e.amount some_amount,
        w,
      )

  -- A message that is sent on meets every condition.
  pub valid-Acceptable : (v : ValidatedEvent) → verdict now e db ≡ Verdict.valid v → Acceptable v
  unfolding verdict check_subscription
  valid-Acceptable v h =
      let (id, feature, hi, hf, n, u, a, pos, w) = from_fields v e.id e.feature h in
      let (t, ht, inside, fresh, c) = from_window v id feature e.timestamp w in
      let (row, hr, k) = from_subscription v id feature t _ c in
      let (s, hs, count, p, is) = from_feature v id feature t row.0 _ k in
      record {
        id = id;
        feature = feature;
        at = t;
        subscription = row;
        snapshot = s;
        has_id = hi;
        has_feature = hf;
        has_time = ht;
        named = n;
        uuid = u;
        tenant_active = a;
        in_window = inside;
        unhandled = fresh;
        subscribed = hr;
        entitled = hs;
        countable = count;
        positive = p;
        sent_as = is;
      }

  module _ (id : ℕ) (feature : String) (t : Date) where
    to_subscription :
        (row : ℕ × Subscription) (s : Snapshot)
        → Table.find_first
            (λ _ s. s.tenant_id == e.tenant_id && is_current s.status)
            db.subscriptions
          ≡ some row
        → find_row
            (λ s. s.subscription_id == row.0 && str_eq s.feature_lookup_key feature)
            db.snapshots
          ≡ some s
        → check_subscription now e db id feature t
          ≡ check_feature now e db id feature t row.0 (some s)
    unfolding check_subscription
    to_subscription row s hr hs =
        ap
          (λ (o : Option (ℕ × Subscription)). elim o [
            | none ↦ Verdict.rejected
            | some row ↦ check_feature now e db id feature t row.0 (
                find_row (λ s. s.subscription_id == row.0 && str_eq s.feature_lookup_key feature)
                  db.snapshots)
          ])
          hr
        ∙ ap (check_feature now e db id feature t row.0) hs

    to_feature :
        (sub : ℕ) (s : Snapshot)
        → is_boolean s.feature_type ≡ false
        → 0 < e.amount
        → check_feature now e db id feature t sub (some s)
          ≡ Verdict.valid (validated_event now e db id feature t sub s)
    unfolding check_feature
    to_feature sub s count pos = ground arith

  -- A message that meets every condition is sent on.
  pub Acceptable-valid : (v : ValidatedEvent) → Acceptable v → verdict now e db ≡ Verdict.valid v
  unfolding verdict check_fields check_window
  Acceptable-valid v a =
      let some_amount : (e.amount == 0) ≡ false = not_zero e.amount a.positive in
      let passed : check_fields now e db (some a.id) (some a.feature)
          ≡ check_window now e db a.id a.feature e.timestamp =
        rw (a.named, some_amount, a.uuid, a.tenant_active) refl in
      let inside : check_window now e db a.id a.feature (some a.at)
          ≡ check_subscription now e db a.id a.feature a.at =
        rw (a.in_window, a.unhandled) refl in
      ap (λ (oi : Option ℕ). check_fields now e db oi e.feature) a.has_id
      ∙ ap (λ (of : Option String). check_fields now e db (some a.id) of) a.has_feature
      ∙ passed
      ∙ ap (check_window now e db a.id a.feature) a.has_time
      ∙ inside
      ∙ to_subscription a.id a.feature a.at a.subscription a.snapshot a.subscribed a.entitled
      ∙ to_feature a.id a.feature a.at a.subscription.0 a.snapshot a.countable a.positive
      ∙ ap Verdict.valid (sym a.sent_as)
