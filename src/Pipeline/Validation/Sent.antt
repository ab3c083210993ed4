-- ===== src/Pipeline/Validation/Sent.antt =====
-- Which messages usage-validation.consumer.ts puts on usage.validated, in plain terms.
use meterplex.Prelude.{
  ℕ, ◌+◌, ◌*◌, ◌≤◌, ◌<◌, ◌≡◌, ◌⊎◌, ◌↔◌, ◌∙◌, sym, ap, refl, String, Bool, true, false, ◌&&◌, Option,
  none, some, List, [], ◌∷◌, ◌++◌, arith, inl, inr, Bool-cases, Option-cases, ◌==◌, str_eq, get_or,
}
use meterplex.Prelude.Table
use meterplex.Calendar.{Date, get_time}
use meterplex.Billing.State.{
  TenantStatus, FeatureType, ResetPeriod, UsageEventStatus, UsageEvent, RawEvent, ValidatedEvent,
  Subscription, Snapshot, Broker, Database,
}
use meterplex.Billing.Monad.{Result, pure}
use meterplex.Billing.Monad.Keeps.{Keeps, Keeps-bind, Keeps-pure, Keeps-catch, bind_ok}
use meterplex.Billing.Generation.{is_boolean}
use meterplex.Billing.Period.{is_current}
use meterplex.Usage.Entitlement.{find_row}
use meterplex.Pipeline.Kafka.{
  goes_out, later, publish, publish_validated, publish_dead_letter, send_validated, send_duplicate,
  send_dead_letter, publish_ok,
}
use meterplex.Pipeline.Ingestion.{find_event}
use meterplex.Pipeline.Validation.{
  Verdict, is_uuid, is_active_tenant, is_handled, was_handled, is_out_of_window, update_event,
  update_event_status, rejection, send_to_dead_letter, reject, carry_out, verdict, validate,
}
use meterplex.Pipeline.Validation.Accepted.{Acceptable, valid-Acceptable, Acceptable-valid}

-- What a message needs to be sent on as `v`.
pub record IsSendable (now : Date) (e : RawEvent) (db : Database) (v : ValidatedEvent)
    : Type 0 where
  pub id : ℕ
  pub feature : String
  pub at : Date
  pub subscription : ℕ × Subscription
  pub snapshot : Snapshot
  pub has_id : e.id ≡ some id
  pub has_feature : e.feature ≡ some feature
  pub has_time : e.timestamp ≡ some at
  pub named : str_eq feature "" ≡ false
  pub uuid : is_uuid e.event_id ≡ true
  pub tenant_active : Table.lookup e.tenant_id db.catalog.tenants ≡ some TenantStatus.active
  pub not_future : get_time at ≤ get_time now + 5 * 60 * 1000
  pub not_old : get_time now ≤ get_time at + 7 * 24 * 60 * 60 * 1000
  pub unhandled :
      (k : ℕ) (u : UsageEvent)
      → find_event e.event_id db ≡ some (k, u)
      → u.status ≡ UsageEventStatus.pending
  pub subscribed :
      Table.find_first (λ _ s. s.tenant_id == e.tenant_id && is_current s.status) db.subscriptions
      ≡ some subscription
  pub entitled :
      find_row
        (λ s. s.subscription_id == subscription.0 && str_eq s.feature_lookup_key feature)
        db.snapshots
      ≡ some snapshot
  pub countable :
      (snapshot.feature_type ≡ FeatureType.quota) ⊎ (snapshot.feature_type ≡ FeatureType.metered)
  pub positive : 0 < e.amount
  pub sent_as : v ≡ record {
    id = id;
    event_id = e.event_id;
    tenant_id = e.tenant_id;
    validated_subscription_id = subscription.0;
    feature = feature;
    feature_type = snapshot.feature_type;
    reset_period = get_or snapshot.reset_period ResetPeriod.monthly;
    amount = e.amount;
    timestamp = at;
    raw = e;
  }

-- The conditions of the code and their plain forms.
active_lem :
    (o : Option TenantStatus) → (is_active_tenant o ≡ true) ↔ (o ≡ some TenantStatus.active)
active_lem none = (λ h. absurd cc, λ h. absurd cc)
active_lem (some TenantStatus.active) = (λ h. refl, λ h. refl)
active_lem (some TenantStatus.suspended) = (λ h. absurd cc, λ h. absurd cc)
active_lem (some TenantStatus.cancelled) = (λ h. absurd cc, λ h. absurd cc)

countable_lem :
    (t : FeatureType)
    → (is_boolean t ≡ false) ↔ ((t ≡ FeatureType.quota) ⊎ (t ≡ FeatureType.metered))
countable_lem FeatureType.boolean =
    (λ h. absurd cc, λ h. elim h [ inl e ↦ absurd cc | inr e ↦ absurd cc ])
countable_lem FeatureType.quota = (λ h. inl refl, λ h. refl)
countable_lem FeatureType.metered = (λ h. inr refl, λ h. refl)

pending_lem : (s : UsageEventStatus) → (is_handled s ≡ false) ↔ (s ≡ UsageEventStatus.pending)
pending_lem UsageEventStatus.pending = (λ h. refl, λ h. refl)
pending_lem UsageEventStatus.validated = (λ h. absurd cc, λ h. absurd cc)
pending_lem UsageEventStatus.aggregated = (λ h. absurd cc, λ h. absurd cc)
pending_lem UsageEventStatus.rejected = (λ h. absurd cc, λ h. absurd cc)
pending_lem UsageEventStatus.duplicate = (λ h. absurd cc, λ h. absurd cc)

module _ (now : Date) (e : RawEvent) (db : Database) (v : ValidatedEvent) where
  handled_as : Option (ℕ × UsageEvent) → Bool
  handled_as o = elim o [ none ↦ false | some row ↦ is_handled row.1.status ]

  plain : Acceptable now e db v → IsSendable now e db v
  unfolding is_out_of_window was_handled handled_as
  plain a = record {
    id = a.id;
    feature = a.feature;
    at = a.at;
    subscription = a.subscription;
    snapshot = a.snapshot;
    has_id = a.has_id;
    has_feature = a.has_feature;
    has_time = a.has_time;
    named = a.named;
    uuid = a.uuid;
    tenant_active = (active_lem (Table.lookup e.tenant_id db.catalog.tenants)).0 a.tenant_active;
    not_future = ground (arith, a.in_window);
    not_old = ground (arith, a.in_window);
    unhandled = λ k u found. (pending_lem u.status).0 (sym (ap handled_as found) ∙ a.unhandled);
    subscribed = a.subscribed;
    entitled = a.entitled;
    countable = (countable_lem a.snapshot.feature_type).0 a.countable;
    positive = a.positive;
    sent_as = a.sent_as;
  }

  coded : IsSendable now e db v → Acceptable now e db v
  unfolding is_out_of_window was_handled handled_as
  coded a = record {
    id = a.id;
    feature = a.feature;
    at = a.at;
    subscription = a.subscription;
    snapshot = a.snapshot;
    has_id = a.has_id;
    has_feature = a.has_feature;
    has_time = a.has_time;
    named = a.named;
    uuid = a.uuid;
    tenant_active = (active_lem (Table.lookup e.tenant_id db.catalog.tenants)).1 a.tenant_active;
    in_window = ground (arith, a.not_future, a.not_old);
    unhandled = elim (Option-cases (find_event e.event_id db)) [
      | inl new ↦ ap handled_as new
      | inr ((k, u), found) ↦ ap handled_as found ∙ (pending_lem u.status).1 (a.unhandled k u found)
    ];
    subscribed = a.subscribed;
    entitled = a.entitled;
    countable = (countable_lem a.snapshot.feature_type).1 a.countable;
    positive = a.positive;
    sent_as = a.sent_as;
  }

-- What usage.validated holds stays as it is.
module _ (vs : List ValidatedEvent) where
  abbrev Holds : Database → Type 0
  Holds db = db.broker.validated ≡ vs

  publish-Holds :
      (send : Broker → Broker)
      → ((b : Broker) → (send b).validated ≡ b.validated)
      → Keeps Holds (publish send)
  publish-Holds send same = record {
    at = λ db h. elim (Bool-cases (goes_out db.broker.down)) [
      | inl out ↦ rw out (same (record db.broker { down = later db.broker.down }) ∙ h)
      | inr lost ↦ rw lost h
    ];
  }

  status-Holds :
      (id : Option ℕ) (status : UsageEventStatus) → Keeps Holds (update_event_status id status)
  unfolding update_event_status update_event
  status-Holds none status = Keeps-pure Holds tt
  status-Holds (some id) status =
      Keeps-catch Holds (update_event id status) (pure tt)
        (record {
          at = λ db h. elim (Option-cases (Table.lookup id db.usage_events)) [
            | inl missing ↦ rw missing h
            | inr (u, found) ↦ rw found h
          ];
        })
        (Keeps-pure Holds tt)

  reject-Holds : (e : RawEvent) → Keeps Holds (reject e)
  unfolding reject
  reject-Holds e =
      Keeps-bind Holds (send_to_dead_letter e)
        (λ u. update_event_status e.id UsageEventStatus.rejected)
        (Keeps-catch Holds (publish_dead_letter (rejection e)) (pure tt)
          (publish-Holds (send_dead_letter (rejection e)) (λ b. refl)) (Keeps-pure Holds tt))
        (λ u. status-Holds e.id UsageEventStatus.rejected)

verdict_cases :
    (w : Verdict)
    → (w ≡ Verdict.rejected)
      ⊎ (w ≡ Verdict.duplicate)
      ⊎ ((v : ValidatedEvent) × (w ≡ Verdict.valid v))
verdict_cases Verdict.rejected = inl refl
verdict_cases Verdict.duplicate = inr (inl refl)
verdict_cases (Verdict.valid v) = inr (inr (v, refl))

-- A list with one more at its end.
module _ {A : Type 0} where
  behind : List A → List A
  behind [] = []
  behind (x ∷ xs) = xs

  first_or : A → List A → A
  first_or d [] = d
  first_or d (x ∷ xs) = x

  longer : (xs : List A) (x : A) → xs ≡ xs ++ x ∷ [] → ⊥
  unfolding behind
  longer [] x h = absurd cc
  longer (y ∷ xs) x h = longer xs x (ap behind h)

  last_lem : (xs : List A) (x y : A) → xs ++ x ∷ [] ≡ xs ++ y ∷ [] → x ≡ y
  unfolding behind first_or
  last_lem [] x y h = ap (first_or x) h
  last_lem (z ∷ xs) x y h = last_lem xs x y (ap behind h)

module _ (now : Date) (e : RawEvent) (db : Database) where
  sent_on :
      (v : ValidatedEvent)
      → goes_out db.broker.down ≡ true
      → (carry_out e (Verdict.valid v) db).1.broker.validated ≡ db.broker.validated ++ v ∷ []
  unfolding carry_out
  sent_on v out =
      let db1 : Database = record db {
        broker = send_validated v (record db.broker { down = later db.broker.down });
      } in
      ap (λ (p : Result (Unit {0}) × Database). p.1.broker.validated)
        (bind_ok (publish_validated v) (λ u. update_event_status e.id UsageEventStatus.validated)
          {db = db} {db' = db1} {a = tt} (publish_ok (send_validated v) db out))
      ∙ (status-Holds (db.broker.validated ++ v ∷ []) e.id UsageEventStatus.validated).at db1 refl

  -- If Kafka takes the message, a message of `usage.raw` puts `v` on `usage.validated` exactly if it
  -- has an event's id, a feature with a name and a UUID as its event's id; its tenant is active; its
  -- timestamp is at most five minutes ahead and at most seven days old; the event, if it is stored, is
  -- still PENDING; the tenant's first current subscription has a snapshot of the feature, which is a
  -- quota or metered; its amount is not 0; and `v` holds its fields beside those of the subscription
  -- and the snapshot.
  pub sent_iff :
      (v : ValidatedEvent)
      → goes_out db.broker.down ≡ true
      → ((validate now e db).1.broker.validated ≡ db.broker.validated ++ v ∷ [])
        ↔ IsSendable now e db v
  unfolding validate
  sent_iff v out = (
    λ grown. elim (verdict_cases (verdict now e db)) [
      | inl refused ↦ absurd (
          longer db.broker.validated v (
            sym ((reject-Holds db.broker.validated e).at db refl)
            ∙ sym (carried Verdict.rejected refused)
            ∙ grown))
      | inr (inl again) ↦ absurd (
          longer db.broker.validated v
            (sym (duplicate_kept) ∙ sym (carried Verdict.duplicate again) ∙ grown))
      | inr (inr (w, sent)) ↦
          let same : w ≡ v =
            last_lem db.broker.validated w v
              (sym (sent_on w out) ∙ sym (carried (Verdict.valid w) sent) ∙ grown) in
          plain now e db v (valid-Acceptable now e db v (sent ∙ ap Verdict.valid same))
    ],
    λ sendable.
        carried (Verdict.valid v) (Acceptable-valid now e db v (coded now e db v sendable))
        ∙ sent_on v out,
  )
    where
      carried :
          (w : Verdict)
          → verdict now e db ≡ w
          → (validate now e db).1.broker.validated ≡ (carry_out e w db).1.broker.validated
      carried w h = ap (λ x. (carry_out e x db).1.broker.validated) h

      duplicate_kept : (carry_out e Verdict.duplicate db).1.broker.validated ≡ db.broker.validated
      duplicate_kept =
          (publish-Holds db.broker.validated (send_duplicate e.event_id) (λ b. refl)).at db refl
