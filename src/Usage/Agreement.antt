-- ===== src/Usage/Agreement.antt =====
-- `check` followed by `consume` in entitlement-check.service.ts.
use meterplex.Prelude.{
  ℕ, ◌+◌, ◌-◌, ◌≡◌, ◌∙◌, refl, sym, ap, String, Bool, false, Option, some, [], ◌∷◌, arith, get_or,
  ltb, inl, inr, Bool-cases, Option-cases, if◌then◌else◌,
}
use meterplex.Calendar.{Date}
use meterplex.Billing.State.{FeatureType, LimitBehavior, Snapshot, Database}
use meterplex.Billing.Monad.{Result, ok, err, quota_exceeded}
use meterplex.Usage.Redis.{cache_read, read-write}
use meterplex.Usage.Entitlement.{get_snapshot, get_usage, usage_from_postgres}
use meterplex.Usage.Check.{CheckResponse, quota_answer, check, check_snapshot, consume, hard_limit}
use meterplex.Usage.Limit.{current_usage, key}
use meterplex.Usage.Requests.{consume_fits, consume_full}

module _ (tenant_id : ℕ) (feature : String) (now : Date) (limit : ℕ) (s : Snapshot) (db : Database)
    (found : get_snapshot tenant_id feature db ≡ some s)
    (quota : s.feature_type ≡ FeatureType.quota) (hard : s.limit_behavior ≡ some LimitBehavior.hard)
    (limited : s.limit ≡ some limit) (up : db.faults ≡ []) where
  abbrev usage : Database → ℕ
  usage = current_usage tenant_id feature now s.reset_period

  -- The database after a check: with Redis up, only a counter may be new.
  abbrev Checked : Type 0
  Checked =
      (db' : Database) × (check tenant_id feature now db
        ≡ (ok (quota_answer now s (usage db)), db'))
      × (usage db' ≡ usage db)
      × (get_snapshot tenant_id feature db' ≡ some s)
      × (db'.faults ≡ [])

  checked : Checked
  unfolding check check_snapshot get_usage get_snapshot
  checked = elim (Option-cases (cache_read (key tenant_id feature now s.reset_period) db.cache)) [
    | inl missing ↦ (
      record db {
        cache =
            (
              key tenant_id feature now s.reset_period,
              usage_from_postgres tenant_id feature s.reset_period now db,
            )
            ∷ db.cache;
      },
      ground arith,
      ap (λ o. get_or o (usage_from_postgres tenant_id feature s.reset_period now db))
            (read-write (key tenant_id feature now s.reset_period) _ db.cache)
          ∙ ap (λ o. get_or o (usage_from_postgres tenant_id feature s.reset_period now db))
              (sym missing),
      found,
      up,
    )
    | inr (n, hit) ↦ (db, ground arith, refl, found, up)
  ]

  is_hard_limit : hard_limit tenant_id feature now s ≡ some limit
  unfolding hard_limit
  is_hard_limit = rw (quota, hard) limited

  answer_of :
      (allowed : Bool) (l u left : ℕ) (at : Option Date)
      → ok (quota_answer now s (usage db)) ≡ ok (CheckResponse.quota_feature allowed l u left at)
      → (allowed ≡ ltb (usage db) limit) × (l ≡ limit) × (u ≡ usage db)
  answer_of allowed l u left at h =
      (ground (arith, h, hard, limited), ground (arith, h, limited), ground (arith, h))

  -- With Redis up and a hard quota that has a limit, a request for one unit after a check is granted
  -- if the check allowed it, with the
  -- usage that the check reported plus one, and refused with that usage and limit if it did not.
  pub check_then_consume :
      (allowed : Bool) (l u left : ℕ) (at : Option Date)
      → (check tenant_id feature now db).0 ≡ ok (CheckResponse.quota_feature allowed l u left at)
      → (consume tenant_id feature now 1 (check tenant_id feature now db).1).0 ≡ (
          if allowed
          then ok (record { consumed = 1; used = u + 1; remaining = l - (u + 1); overage = false })
          else err (quota_exceeded l u))
  check_then_consume allowed l u left at h =
      let (db', ran, same, found', up') = checked in
      let (now_allowed, same_limit, same_usage) =
        answer_of allowed l u left at
          (ap (λ (p : Result CheckResponse × Database). p.0) (sym ran) ∙ h) in
      elim (Bool-cases (ltb (usage db) limit)) [
        | inl room ↦
            rw (ran, now_allowed, same_limit, same_usage, room)
              ((consume_fits tenant_id feature now 1 limit s db' found' is_hard_limit up'
                  (rw same (ground (arith, room)))).0
                ∙ rw same refl)
        | inr full ↦
            rw (ran, now_allowed, same_limit, same_usage, full)
              ((consume_full tenant_id feature now 1 limit s db' found' is_hard_limit up'
                  (rw same (ground (arith, full)))).0
                ∙ rw same refl)
      ]
