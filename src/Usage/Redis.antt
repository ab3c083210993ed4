-- ===== src/Usage/Redis.antt =====
-- The counters of usage in Redis (src/infra/cache/redis.service.ts). Each call may fail; a counter
-- that has expired is no longer there.
use meterplex.Prelude.{
  ℕ, ◌+◌, ◌≡◌, refl, Bool, true, false, Option, none, some, List, [], ◌∷◌, get_or, ltb,
  if◌then◌else◌,
}
use meterplex.Text.{Text, text_eq, text_eq_refl}
use meterplex.Billing.State.{Database}
use meterplex.Billing.Monad.Keeps.{Keeps}
use meterplex.Billing.Monad.{Exec, redis_error, throw, pure, gets, modify, ◌>>=◌, ◌>>◌}

module _ {A : Type 0} where
  abbrev pub attempt : List Bool → Exec A → Exec A
  attempt [] m db = m db
  attempt (true ∷ rest) m db = throw redis_error (record db { faults = rest })
  attempt (false ∷ rest) m db = m (record db { faults = rest })

  -- The next call fails if `faults` says so.
  abbrev pub redis_call : Exec A → Exec A
  redis_call m db = attempt db.faults m db

unfoldable pub cache_read : Text → List (Text × ℕ) → Option ℕ
unfolding text_eq
cache_read key [] = none
cache_read key ((k, n) ∷ rest) = if text_eq k key then some n else cache_read key rest

-- `get`, up to the reading of the number
unfoldable pub get : Text → Exec (Option ℕ)
unfolding cache_read
get key = redis_call (gets (λ db. cache_read key db.cache))

abbrev pub write : Text → ℕ → Exec (Unit {0})
write key n = modify (λ db. record db { cache = (key, n) ∷ db.cache })

unfoldable pub set : Text → ℕ → Exec (Unit {0})
set key n = redis_call (write key n)

-- A missing counter counts from 0.
abbrev pub add_to_counter : Text → ℕ → Exec ℕ
add_to_counter key amount = do
  current ← gets (λ db. get_or (cache_read key db.cache) 0)
  write key (current + amount)
  pure (current + amount)

unfoldable pub incr_by : Text → ℕ → Exec ℕ
unfolding cache_read
incr_by key amount = redis_call (add_to_counter key amount)

-- The time to live of a counter is not kept: it may expire at any time.
unfoldable pub expire : Text → Exec (Unit {0})
expire key = redis_call (pure tt)

-- `HARD_LIMIT_LUA`, which runs as one step; `none` is its -1.
unfoldable pub hard_limit_lua : Text → ℕ → ℕ → Exec (Option ℕ)
unfolding cache_read
hard_limit_lua key amount limit = redis_call (do
  current ← gets (λ db. get_or (cache_read key db.cache) 0)
  if ltb limit (current + amount)
      then pure none
      else do write key (current + amount); pure (some (current + amount)))

pub read-write : (key : Text) (n : ℕ) (c : List (Text × ℕ)) → cache_read key ((key, n) ∷ c) ≡ some n
unfolding cache_read
read-write key n c = rw (text_eq_refl key) refl

-- A call of Redis keeps what its body keeps and what does not speak of `faults`.
pub redis-Keeps :
    {A : Type 0} (P : Database → Type 0) (m : Exec A)
    → ((rest : List Bool) (db : Database) → P db → P (record db { faults = rest }))
    → Keeps P m
    → Keeps P (redis_call m)
redis-Keeps {A} P m free km = record { at = λ db h. on_faults db.faults db h }
  where
    on_faults : (faults : List Bool) (db : Database) → P db → P (attempt faults m db).1
    on_faults [] db h = km.at db h
    on_faults (true ∷ rest) db h = free rest db h
    on_faults (false ∷ rest) db h = km.at (record db { faults = rest }) (free rest db h)
