-- ===== src/Usage/Requests.antt =====
-- Calls of `consume` in entitlement-check.service.ts for a feature with a hard limit.
use meterplex.Prelude.{
  ltb, Bool-cases, ℕ, ◌+◌, ◌-◌, ◌≤◌, ◌<◌, ◌≡◌, ◌∙◌, refl, ap, String, Bool, false, Option, none,
  some, [], arith, inl, inr, ◌&&◌, if◌then◌else◌,
}
use meterplex.Calendar.{Date}
use meterplex.Billing.State.{FeatureType, Snapshot, Database}
use meterplex.Billing.Monad.{Result-cases, Result, ok, err, Error, quota_exceeded}
use meterplex.Billing.Generation.{is_boolean, is_quota, is_hard}
use meterplex.Usage.Redis.{cache_read}
use meterplex.Usage.Entitlement.{count_hard, get_snapshot}
use meterplex.Usage.Check.{
  ConsumeResponse, consume, consume_snapshot, consumed_answer, hard_limit, record_usage,
  count_usage,
}
use meterplex.Usage.Limit.{Kept, current_usage, key, count_hard_grants, count_hard_refuses}
use meterplex.Usage.Bound.{count_hard_bound}

quota_only :
    (t : FeatureType) (b : Bool) (o : Option ℕ) {limit : ℕ}
    → (if is_quota t && b then o else none) ≡ some limit
    → is_boolean t ≡ false
quota_only FeatureType.boolean b o h = cc
quota_only FeatureType.quota b o h = refl
quota_only FeatureType.metered b o h = refl

module _ (tenant_id : ℕ) (feature : String) (now : Date) (amount limit : ℕ) (s : Snapshot)
    (db : Database) (found : get_snapshot tenant_id feature db ≡ some s)
    (hard : hard_limit tenant_id feature now s ≡ some limit) where
  not_boolean : is_boolean s.feature_type ≡ false
  unfolding hard_limit
  not_boolean = quota_only s.feature_type (is_hard s.limit_behavior) s.limit hard

  abbrev counted : Result ℕ × Database
  counted = count_hard tenant_id feature now s.reset_period amount limit db

  consume_ok :
      (u : ℕ)
      → counted.0 ≡ ok u
      → (consume tenant_id feature now amount db).0
        ≡ ok (consumed_answer tenant_id feature now s amount u)
  unfolding consume consume_snapshot count_usage record_usage hard_limit
  consume_ok u e = ground (arith, not_boolean)

  consume_err :
      (e : Error) → counted.0 ≡ err e → consume tenant_id feature now amount db ≡ (err e, counted.1)
  unfolding consume consume_snapshot count_usage hard_limit
  consume_err e h = ground (arith, not_boolean)

  -- Recording the event of a granted request leaves the counters alone.
  consume_cache :
      (u : ℕ)
      → counted.0 ≡ ok u
      → (consume tenant_id feature now amount db).1.cache ≡ counted.1.cache
  unfolding consume consume_snapshot count_usage record_usage hard_limit
  consume_cache u e = ground (arith, not_boolean)

  consume_others :
      (u : ℕ)
      → counted.0 ≡ ok u
      → ((consume tenant_id feature now amount db).1.faults ≡ counted.1.faults)
        × ((consume tenant_id feature now amount db).1.subscriptions ≡ counted.1.subscriptions)
        × ((consume tenant_id feature now amount db).1.snapshots ≡ counted.1.snapshots)
  unfolding consume consume_snapshot count_usage record_usage hard_limit
  consume_others u e = ground (arith, not_boolean)

  limit_there : s.limit ≡ some limit
  unfolding hard_limit
  limit_there = ground arith

  -- Whatever calls of Redis fail, a request of a feature with a hard limit that is granted leaves
  -- the usage that it reports within the limit, and reports no overage.
  pub consume_bound :
      (r : ConsumeResponse)
      → (consume tenant_id feature now amount db).0 ≡ ok r
      → (r.used ≤ limit) × (r.overage ≡ false)
  consume_bound r h = elim (Result-cases counted.0) [
    | inl (u, e) ↦
        let b : u ≤ limit =
          count_hard_bound tenant_id feature now s.reset_period amount limit u db e in
        let same : consumed_answer tenant_id feature now s amount u ≡ r =
          ground (arith, consume_ok u e, h) in
        ground (arith, b, same, limit_there)
    | inr (e, f) ↦ absurd (ground (arith, consume_err e f, h))
  ]

  -- With Redis up, a request that fits is granted; the counter and the answer hold the new usage.
  pub consume_fits :
      db.faults ≡ []
      → current_usage tenant_id feature now s.reset_period db + amount ≤ limit
      → let used = current_usage tenant_id feature now s.reset_period db in
        ((consume tenant_id feature now amount db).0
          ≡ ok (record {
            consumed = amount;
            used = used + amount;
            remaining = limit - (used + amount);
            overage = false;
          }))
        × (cache_read
              (key tenant_id feature now s.reset_period)
              (consume tenant_id feature now amount db).1.cache
            ≡ some (used + amount))
  consume_fits up room =
      let (grant, kept, _) =
        count_hard_grants tenant_id feature now s.reset_period amount limit db up room in
      (
        consume_ok _ grant ∙ ground (arith, limit_there),
        ap (cache_read (key tenant_id feature now s.reset_period)) (consume_cache _ grant) ∙ kept,
      )

  -- With Redis up, a request that does not fit is refused, and the counter holds the usage before.
  pub consume_full :
      db.faults ≡ []
      → limit < current_usage tenant_id feature now s.reset_period db + amount
      → let used = current_usage tenant_id feature now s.reset_period db in
        ((consume tenant_id feature now amount db).0 ≡ err (quota_exceeded limit used))
        × (cache_read
              (key tenant_id feature now s.reset_period)
              (consume tenant_id feature now amount db).1.cache
            ≡ some used)
  consume_full up full =
      let (refused, stays, _) =
        count_hard_refuses tenant_id feature now s.reset_period amount limit db up full in
      rw (consume_err _ refused) (refl, stays)

  -- With Redis up, a request leaves what the next one reads to find its snapshot.
  pub consume-Kept :
      db.faults ≡ []
      → Kept tenant_id feature now s.reset_period (consume tenant_id feature now amount db).1 db
  consume-Kept up =
      elim (Bool-cases
        (ltb limit (current_usage tenant_id feature now s.reset_period db + amount))) [
          | inl full ↦
              let (refused, _, kept) =
                count_hard_refuses tenant_id feature now s.reset_period amount limit db up
                  (ground (arith, full)) in
              rw (consume_err _ refused) kept
          | inr room ↦
              let (grant, _, kept) =
                count_hard_grants tenant_id feature now s.reset_period amount limit db up
                  (ground (arith, room)) in
              let (f, t, p) = consume_others _ grant in (f ∙ kept.0, t ∙ kept.1, p ∙ kept.2)
        ]
