-- ===== src/Usage/Limit.antt =====
-- The hard branch of `consume` in entitlement-check.service.ts, in steps, while Redis is up.
use meterplex.Prelude.{
  ℕ, ◌+◌, ◌≤◌, ◌<◌, ◌≡◌, ◌∙◌, refl, sym, ap, String, Option, none, some, [], ◌∷◌, get_or, arith,
  Option-cases, inl, inr,
}
use meterplex.Text.{Text}
use meterplex.Calendar.{Date}
use meterplex.Billing.State.{ResetPeriod, Database}
use meterplex.Billing.Monad.{Result, ok, err, Error, Exec, quota_exceeded, recover_with, ◌>>=◌}
use meterplex.Billing.Monad.Keeps.{bind_ok, catch_with_step}
use meterplex.Usage.Redis.{cache_read, read-write, hard_limit_lua}
use meterplex.Usage.Entitlement.{
  cache_key, usage_from_postgres, get_usage, ensure_cache_seeded, granted, consume_fallback,
  count_hard, unless_refused,
}

module _ (tenant_id : ℕ) (feature : String) (now : Date) (period : Option ResetPeriod) where
  abbrev pub key : Text
  key = cache_key tenant_id feature period now

  -- The usage that a request sees: the counter, or what Postgres has if there is none.
  abbrev pub current_usage : Database → ℕ
  current_usage db =
      get_or (cache_read key db.cache) (usage_from_postgres tenant_id feature period now db)

  -- Redis is up, and what a request reads to find its snapshot is as before.
  abbrev pub Kept : Database → Database → Type 0
  Kept db' db =
      (db'.faults ≡ []) × (db'.subscriptions ≡ db.subscriptions) × (db'.snapshots ≡ db.snapshots)

  -- The seeding leaves the usage that a request sees in the counter.
  abbrev pub Seeded : Database → Type 0
  Seeded db =
      (db' : Database) × (ensure_cache_seeded tenant_id feature now period db ≡ (ok tt, db'))
      × (cache_read key db'.cache ≡ some (current_usage db))
      × Kept db' db

  pub seeded : (db : Database) → db.faults ≡ [] → Seeded db
  unfolding ensure_cache_seeded
  seeded db up = elim (Option-cases (cache_read key db.cache)) [
    | inl missing ↦ (
      record db { cache = (key, usage_from_postgres tenant_id feature period now db) ∷ db.cache },
      ground arith,
      read-write key _ db.cache
          ∙ ap (λ o. some (get_or o (usage_from_postgres tenant_id feature period now db)))
              (sym missing),
      (up, refl, refl),
    )
    | inr (n, hit) ↦ (db, ground arith, rw hit refl, (up, refl, refl))
  ]

  lua_grants :
      (amount limit used : ℕ) (db : Database)
      → db.faults ≡ []
      → cache_read key db.cache ≡ some used
      → used + amount ≤ limit
      → hard_limit_lua key amount limit db
        ≡ (ok (some (used + amount)), record db { cache = (key, used + amount) ∷ db.cache })
  unfolding hard_limit_lua
  lua_grants amount limit used db up hit room = ground arith

  lua_refuses :
      (amount limit used : ℕ) (db : Database)
      → db.faults ≡ []
      → cache_read key db.cache ≡ some used
      → limit < used + amount
      → hard_limit_lua key amount limit db ≡ (ok none, db)
  unfolding hard_limit_lua
  lua_refuses amount limit used db up hit full = ground arith

  refused :
      (limit used : ℕ) (db : Database)
      → db.faults ≡ []
      → cache_read key db.cache ≡ some used
      → granted tenant_id feature now period limit none db ≡ (err (quota_exceeded limit used), db)
  unfolding granted get_usage
  refused limit used db up hit = ground arith

  module _ (amount limit : ℕ) where
    abbrev pub handler : Error → Exec ℕ
    handler =
        unless_refused tenant_id feature now
          (consume_fallback tenant_id feature now period amount limit)

    abbrev pub after_seed : Unit {0} → Exec ℕ
    after_seed _ = hard_limit_lua key amount limit >>= λ result.
        granted tenant_id feature now period limit result

    -- A hard quota's branch goes on from what the script and its result lead to.
    count_step :
        (db db' db₂ : Database) (r : Result ℕ)
        → ensure_cache_seeded tenant_id feature now period db ≡ (ok tt, db')
        → after_seed tt db' ≡ (r, db₂)
        → count_hard tenant_id feature now period amount limit db ≡ recover_with r handler db₂
    unfolding count_hard
    count_step db db' db₂ r ran rest =
        catch_with_step (ensure_cache_seeded tenant_id feature now period >>= after_seed) handler
          (bind_ok (ensure_cache_seeded tenant_id feature now period) after_seed ran ∙ rest)

    -- With Redis up, a request that fits into a hard quota is granted and counted.
    pub count_hard_grants :
        (db : Database)
        → db.faults ≡ []
        → current_usage db + amount ≤ limit
        → ((count_hard tenant_id feature now period amount limit db).0
            ≡ ok (current_usage db + amount))
          × (cache_read key (count_hard tenant_id feature now period amount limit db).1.cache
              ≡ some (current_usage db + amount))
          × Kept (count_hard tenant_id feature now period amount limit db).1 db
    count_hard_grants db up room =
        let (db', ran, hit, kept) = seeded db up in
        let used = current_usage db in
        let counted : Database = record db' { cache = (key, used + amount) ∷ db'.cache } in
        rw
          (count_step db db' counted (ok (used + amount)) ran (
            bind_ok (hard_limit_lua key amount limit)
              (λ result. granted tenant_id feature now period limit result)
              (lua_grants amount limit used db' kept.0 hit room)
            ∙ (unfold granted in refl)))
          (refl, read-write key (used + amount) db'.cache, kept)

    -- With Redis up, a request that does not fit is refused, and the counter stays.
    pub count_hard_refuses :
        (db : Database)
        → db.faults ≡ []
        → limit < current_usage db + amount
        → ((count_hard tenant_id feature now period amount limit db).0
            ≡ err (quota_exceeded limit (current_usage db)))
          × (cache_read key (count_hard tenant_id feature now period amount limit db).1.cache
              ≡ some (current_usage db))
          × Kept (count_hard tenant_id feature now period amount limit db).1 db
    unfolding unless_refused
    count_hard_refuses db up full =
        let (db', ran, hit, kept) = seeded db up in
        let used = current_usage db in
        rw
          (count_step db db' db' (err (quota_exceeded limit used)) ran (
            bind_ok (hard_limit_lua key amount limit)
              (λ result. granted tenant_id feature now period limit result)
              (lua_refuses amount limit used db' kept.0 hit full)
            ∙ refused limit used db' kept.0 hit))
          (refl, hit, kept)
