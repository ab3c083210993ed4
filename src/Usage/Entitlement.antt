-- ===== src/Usage/Entitlement.antt =====
-- src/modules/entitlement-check/entitlement-check.service.ts: whether a tenant may use a feature,
-- and the counting of what it uses. `now` is what `new Date()` gives in a call.
use meterplex.Prelude.{
  ℕ, ◌+◌, String, Bool, ◌&&◌, Option, none, some, List, [], ◌∷◌, ◌++◌, ◌==◌, ltb, str_eq,
  if◌then◌else◌,
}
use meterplex.Prelude.Table
use meterplex.Text.{Text, codes, show, pad_start, text_eq}
use meterplex.Calendar.{Date}
use meterplex.Billing.State.{ResetPeriod, Snapshot, Database}
use meterplex.Billing.Monad.{
  Exec, Error, quota_exceeded, pure, throw, gets, catch, catch_with, ◌>>=◌, ◌>>◌,
}
use meterplex.Billing.Period.{is_current}
use meterplex.Usage.Redis.{get, set, incr_by, expire, hard_limit_lua}

unfoldable pub find_row {ℓ} : {A : Type ℓ} → (A → Bool) → List A → Option A
find_row p [] = none
find_row p (x ∷ xs) = if p x then some x else find_row p xs

-- `getSnapshot`: of the tenant's active or trialing subscription
unfoldable pub get_snapshot : ℕ → String → Database → Option Snapshot
unfolding find_row Table.find_first
get_snapshot tenant_id feature db =
    elim (Table.find_first (λ _ s. s.tenant_id == tenant_id && is_current s.status)
      db.subscriptions) [
        | none ↦ none
        | some row ↦
            find_row (λ s. s.subscription_id == row.0 && str_eq s.feature_lookup_key feature)
              db.snapshots
      ]

-- `getPeriodKey`
unfoldable pub reset_key : Date → Option ResetPeriod → Text
unfolding show pad_start
reset_key now (some ResetPeriod.monthly) =
    show now.year ++ (codes "-" ++ pad_start 2 (show (now.month + 1)))
reset_key now (some ResetPeriod.annually) = show now.year
reset_key now (some ResetPeriod.never) = codes "lifetime"
reset_key now none = codes "lifetime"

unfoldable pub cache_key : ℕ → String → Option ResetPeriod → Date → Text
unfolding reset_key
cache_key tenant_id feature period now =
    codes "usage:"
    ++ (show tenant_id ++ (codes ":" ++ (codes feature ++ (codes ":" ++ reset_key now period))))

-- `getUsageFromPostgres`
unfoldable pub usage_from_postgres : ℕ → String → Option ResetPeriod → Date → Database → ℕ
unfolding find_row
usage_from_postgres tenant_id feature period now db =
    elim (find_row
      (λ a.
        a.tenant_id == tenant_id
        && str_eq a.feature_lookup_key feature
        && text_eq a.period_key (reset_key now period))
      db.aggregates) [ none ↦ 0 | some a ↦ a.amount ]

-- `getResetDate`
unfoldable pub reset_date : Date → Option ResetPeriod → Option Date
reset_date now (some ResetPeriod.monthly) =
    if now.month == 11
    then some (record { year = now.year + 1; month = 0; day = 1; ms = 0 })
    else some (record { year = now.year; month = now.month + 1; day = 1; ms = 0 })
reset_date now (some ResetPeriod.annually) =
    some (record { year = now.year + 1; month = 0; day = 1; ms = 0 })
reset_date now (some ResetPeriod.never) = none
reset_date now none = none

module _ (tenant_id : ℕ) (feature : String) (now : Date) where
  -- A counter that was read, or the amount in Postgres, which is then cached.
  unfoldable pub or_postgres : Option ResetPeriod → Option ℕ → Exec ℕ
  unfolding set usage_from_postgres
  or_postgres period (some n) = pure n
  or_postgres period none = do
    amount ← gets (usage_from_postgres tenant_id feature period now)
    catch (set (cache_key tenant_id feature period now) amount) (pure tt)
    pure amount

  unfoldable pub get_usage : Option ResetPeriod → Exec ℕ
  unfolding or_postgres get
  get_usage period = do
    cached ← catch (get (cache_key tenant_id feature period now)) (pure none)
    or_postgres period cached

  unfoldable pub seed : Option ResetPeriod → Option ℕ → Exec (Unit {0})
  unfolding set usage_from_postgres
  seed period (some n) = pure tt
  seed period none = do
    amount ← gets (usage_from_postgres tenant_id feature period now)
    set (cache_key tenant_id feature period now) amount

  unfoldable pub ensure_cache_seeded : Option ResetPeriod → Exec (Unit {0})
  unfolding seed get
  ensure_cache_seeded period =
      catch (do exists ← get (cache_key tenant_id feature period now); seed period exists) (pure tt)

  unfoldable pub consume_fallback : Option ResetPeriod → ℕ → ℕ → Exec ℕ
  unfolding usage_from_postgres
  consume_fallback period amount limit = do
    current ← gets (usage_from_postgres tenant_id feature period now)
    if ltb limit (current + amount)
        then throw (quota_exceeded limit current)
        else pure (current + amount)

  -- After the script: its new usage, or the refusal.
  unfoldable pub granted : Option ResetPeriod → ℕ → Option ℕ → Exec ℕ
  unfolding get_usage
  granted period limit (some n) = pure n
  granted period limit none = do current ← get_usage period; throw (quota_exceeded limit current)

  -- The refusal is thrown again; any other error leads to Postgres.
  unfoldable pub unless_refused : Exec ℕ → Error → Exec ℕ
  unless_refused fallback (quota_exceeded l c) = throw (quota_exceeded l c)
  unless_refused fallback e = fallback

  -- the branch for a hard quota
  unfoldable pub count_hard : Option ResetPeriod → ℕ → ℕ → Exec ℕ
  unfolding ensure_cache_seeded hard_limit_lua granted consume_fallback unless_refused
  count_hard period amount limit =
      catch_with
        (do
          ensure_cache_seeded period
          result ← hard_limit_lua (cache_key tenant_id feature period now) amount limit
          granted period limit result)
        (unless_refused (consume_fallback period amount limit))

  -- the branch for everything else
  unfoldable pub count_soft : Option ResetPeriod → ℕ → Exec ℕ
  unfolding ensure_cache_seeded incr_by expire usage_from_postgres
  count_soft period amount =
      catch
        (do
          ensure_cache_seeded period
          n ← incr_by (cache_key tenant_id feature period now) amount
          expire (cache_key tenant_id feature period now)
          pure n)
        (do
          current ← gets (usage_from_postgres tenant_id feature period now)
          pure (current + amount))
