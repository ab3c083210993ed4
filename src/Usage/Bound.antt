-- ===== src/Usage/Bound.antt =====
-- The hard branch of `consume` in entitlement-check.service.ts, with calls of Redis that may fail.
use meterplex.Prelude.{ℕ, ◌≤◌, ◌≡◌, refl, String, Option, none, some, arith}
use meterplex.Calendar.{Date}
use meterplex.Billing.State.{ResetPeriod, Database}
use meterplex.Billing.Monad.{Result, ok, err, Error, quota_exceeded, throw, recover_with, ◌>>=◌}
use meterplex.Usage.Redis.{hard_limit_lua}
use meterplex.Usage.Entitlement.{
  ensure_cache_seeded, granted, get_usage, consume_fallback, count_hard, unless_refused, cache_key,
}
use meterplex.Usage.Limit.{handler, after_seed}

module _ (tenant_id : ℕ) (feature : String) (now : Date) (period : Option ResetPeriod) where
  lua_bound :
      (amount limit n : ℕ) (db : Database)
      → (hard_limit_lua (cache_key tenant_id feature period now) amount limit db).0 ≡ ok (some n)
      → n ≤ limit
  unfolding hard_limit_lua
  lua_bound amount limit n db h = ground arith

  fallback_bound :
      (amount limit n : ℕ) (db : Database)
      → (consume_fallback tenant_id feature now period amount limit db).0 ≡ ok n
      → n ≤ limit
  unfolding consume_fallback
  fallback_bound amount limit n db h = ground arith

  -- A result within the limit.
  abbrev Within : ℕ → Result ℕ → Type 0
  Within limit r = (n : ℕ) → r ≡ ok n → n ≤ limit

  refusal_bound :
      (limit : ℕ) (f : ℕ → Error) (r : Result ℕ) (db : Database)
      → Within limit (◌>>=◌ {B = ℕ} (λ s. (r, s)) (λ c. throw (f c)) db).0
  refusal_bound limit f (ok c) db = λ n h. cc
  refusal_bound limit f (err e) db = λ n h. cc

  granted_bound :
      (limit : ℕ) (o : Option ℕ) (db : Database)
      → ((m : ℕ) → o ≡ some m → m ≤ limit)
      → Within limit (granted tenant_id feature now period limit o db).0
  unfolding granted
  granted_bound limit none db k =
      refusal_bound limit (quota_exceeded limit) (get_usage tenant_id feature now period db).0
        (get_usage tenant_id feature now period db).1
  granted_bound limit (some m) db k = λ n h. ground (arith, k m refl)

  script_bound :
      (limit : ℕ) (r : Result (Option ℕ)) (db : Database)
      → ((m : ℕ) → r ≡ ok (some m) → m ≤ limit)
      → Within limit (◌>>=◌ (λ s. (r, s)) (granted tenant_id feature now period limit) db).0
  script_bound limit (ok o) db k = granted_bound limit o db (λ m h. k m (rw h refl))
  script_bound limit (err e) db k = λ n h. cc

  seed_bound :
      (amount limit : ℕ) (r : Result (Unit {0})) (db : Database)
      → Within limit
          (◌>>=◌ (λ s. (r, s)) (after_seed tenant_id feature now period amount limit) db).0
  seed_bound amount limit (ok tt) db =
      let p = hard_limit_lua (cache_key tenant_id feature period now) amount limit db in
      script_bound limit p.0 p.1 (λ m h. lua_bound amount limit m db h)
  seed_bound amount limit (err e) db = λ n h. cc

  handler_bound :
      (amount limit : ℕ) (e : Error) (db : Database)
      → Within limit (handler tenant_id feature now period amount limit e db).0
  unfolding unless_refused
  handler_bound amount limit e db = λ n h. ground (arith, fallback_bound amount limit n db)

  recover_bound :
      (amount limit : ℕ) (r : Result ℕ) (db : Database)
      → Within limit r
      → Within limit (recover_with r (handler tenant_id feature now period amount limit) db).0
  recover_bound amount limit (ok n) db k = k
  recover_bound amount limit (err e) db k = handler_bound amount limit e db

  -- Whatever calls of Redis fail, what a hard quota grants is within its limit.
  pub count_hard_bound :
      (amount limit n : ℕ) (db : Database)
      → (count_hard tenant_id feature now period amount limit db).0 ≡ ok n
      → n ≤ limit
  unfolding count_hard
  count_hard_bound amount limit n db h =
      let p = ensure_cache_seeded tenant_id feature now period db in
      let q = after_seed tenant_id feature now period amount limit tt p.1 in
      recover_bound amount limit _ _ (seed_bound amount limit p.0 p.1) n h
