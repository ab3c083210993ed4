-- ===== src/RateLimit/Window.antt =====
-- How many requests of one caller pass in one window.
use meterplex.Prelude.{
  ℕ, ◌+◌, ◌≡◌, ◌∙◌, refl, sym, ap, Bool, true, false, Option, some, List, [], ◌∷◌, get_or, arith,
  leb, ltb, ◌==◌, length, All, if◌then◌else◌, Bool-cases, inl, inr,
}
use meterplex.Text.{Text}
use meterplex.Billing.State.{Database}
use meterplex.Billing.Monad.{
  Result, ok, err, too_many_requests, Exec, catch_with, pure, throw, ◌>>◌,
}
use meterplex.Billing.Monad.Keeps.{bind_ok, catch_with_step}
use meterplex.Usage.Redis.{incr_by, expire, cache_read, read-write, attempt, add_to_counter}
use meterplex.RateLimit.{
  RateLimitConfig, Caller, window_timestamp, Headers, get_identifier, redis_key, headers_of,
  retry_after, count_request, judge, fail_open, can_activate,
}

-- The counter of a key; a missing one counts from 0.
unfoldable pub counter : Text → Database → ℕ
counter key db = get_or (cache_read key db.cache) 0

-- With Redis up, a request adds one to its counter.
abbrev pub counted : Text → Database → Database
counted key db = record db { cache = (key, counter key db + 1) ∷ db.cache }

-- What follows the increment
unfoldable pub set_expiry : Text → ℕ → Exec ℕ
set_expiry key current = if current == 1 then expire key >> pure current else pure current

module _ (key : Text) (db : Database) (up : db.faults ≡ []) where
  incr_done : incr_by key 1 db ≡ (ok (counter key db + 1), counted key db)
  unfolding incr_by counter
  incr_done = ap (λ f. attempt f (add_to_counter key 1) db) up

  expire_done : expire key (counted key db) ≡ (ok tt, counted key db)
  unfolding expire
  expire_done = ap (λ f. attempt f (pure tt) (counted key db)) up

  expiry_done : (n : ℕ) → set_expiry key n (counted key db) ≡ (ok n, counted key db)
  unfolding set_expiry
  expiry_done n = elim (Bool-cases (n == 1)) [
    | inl first ↦ rw first (
        bind_ok (expire key) (λ _. pure n) {db = counted key db} {db' = counted key db} {a = tt}
          expire_done)
    | inr later ↦ rw later refl
  ]

  count_done : count_request key db ≡ (ok (counter key db + 1), counted key db)
  unfolding count_request set_expiry
  count_done =
      bind_ok (incr_by key 1) (set_expiry key) {db = db} {db' = counted key db}
        {a = counter key db + 1} incr_done
      ∙ expiry_done (counter key db + 1)

-- A request passes.
abbrev pub passes : Result (Option Headers) → Bool
passes (ok headers) = true
passes (err e) = false

module _ (config : RateLimitConfig) (identifier : Text) (now later : ℕ) where
  unfoldable pub decide : ℕ → Exec (Option Headers)
  decide current =
      if ltb config.limit current
      then throw (too_many_requests (retry_after config now later))
      else pure (some (headers_of config now current))

  -- The guard on a request with an identifier
  guard : Exec (Option Headers)
  guard = catch_with (judge config identifier now later) fail_open

module _ (config : RateLimitConfig) (identifier : Text) (now later : ℕ) (db : Database) where
  judge_done :
      db.faults ≡ []
      → judge config identifier now later db
        ≡ decide config identifier now later
            (counter (redis_key config identifier now) db + 1)
            (counted (redis_key config identifier now) db)
  unfolding judge decide
  judge_done up =
      bind_ok (count_request (redis_key config identifier now)) (decide config identifier now later)
        {db = db} {db' = counted (redis_key config identifier now) db}
        {a = counter (redis_key config identifier now) db + 1}
        (count_done (redis_key config identifier now) db up)

  refused :
      ltb config.limit (counter (redis_key config identifier now) db + 1) ≡ true
      → decide config identifier now later
          (counter (redis_key config identifier now) db + 1)
          (counted (redis_key config identifier now) db)
        ≡ (
          err (too_many_requests (retry_after config now later)),
          counted (redis_key config identifier now) db,
        )
  unfolding decide
  refused h = rw h refl

  let_in :
      ltb config.limit (counter (redis_key config identifier now) db + 1) ≡ false
      → decide config identifier now later
          (counter (redis_key config identifier now) db + 1)
          (counted (redis_key config identifier now) db)
        ≡ (
          ok (some (headers_of config now (counter (redis_key config identifier now) db + 1))),
          counted (redis_key config identifier now) db,
        )
  unfolding decide
  let_in h = rw h refl

  one_request :
      db.faults ≡ []
      → (passes (guard config identifier now later db).0
          ≡ leb (counter (redis_key config identifier now) db + 1) config.limit)
        × ((guard config identifier now later db).1 ≡ counted (redis_key config identifier now) db)
  unfolding guard decide
  one_request up =
      elim (Bool-cases (ltb config.limit (counter (redis_key config identifier now) db + 1))) [
        | inl over ↦
            let full : leb (counter (redis_key config identifier now) db + 1) config.limit ≡ false =
              ground (arith, over) in
            let step =
              catch_with_step (judge config identifier now later) fail_open {db = db}
                {db' = counted (redis_key config identifier now) db}
                {r = err (too_many_requests (retry_after config now later))}
                (judge_done up ∙ refused over) in
            rw (step, full) (refl, refl)
        | inr room ↦
            let fits : leb (counter (redis_key config identifier now) db + 1) config.limit ≡ true =
              ground (arith, room) in
            let step =
              catch_with_step (judge config identifier now later) fail_open {db = db}
                {db' = counted (redis_key config identifier now) db}
                {r = ok
                  (some (headers_of config now (counter (redis_key config identifier now) db + 1)))}
                (judge_done up ∙ let_in room) in
            rw (step, fits) (refl, refl)
      ]

-- Requests of one caller, each with its times, and how many of them pass.
unfoldable pub passed : RateLimitConfig → Caller → List (ℕ × ℕ) → Database → ℕ
unfolding can_activate
passed config caller [] db = 0
passed config caller ((now, later) ∷ rest) db =
    let (r, db') = can_activate config caller now later db in
    (if passes r then 1 else 0) + passed config caller rest db'

-- The requests are in the window number `w`.
abbrev pub AreIn : RateLimitConfig → ℕ → List (ℕ × ℕ) → Type 0
AreIn config w requests = All (λ t. window_timestamp config t.0 ≡ w) requests

abbrev pub cap : ℕ → ℕ → ℕ
cap n limit = if leb n limit then n else limit

same_key :
    (config : RateLimitConfig) (identifier : Text) (now first : ℕ)
    → window_timestamp config now ≡ window_timestamp config first
    → redis_key config identifier now ≡ redis_key config identifier first
unfolding redis_key
same_key config identifier now first h = rw h refl

counter-counted : (k : Text) (db : Database) → counter k (counted k db) ≡ counter k db + 1
unfolding counter
counter-counted k db =
    ap (λ (o : Option ℕ). get_or o 0) (read-write k (get_or (cache_read k db.cache) 0 + 1) db.cache)

module _ (config : RateLimitConfig) (caller : Caller) (c : ℕ) (id : Text) (first : ℕ)
    (named : get_identifier caller config.key_type ≡ some (c ∷ id)) where
  window_key : Text
  window_key = redis_key config (c ∷ id) first

  -- One request: it passes if there is room, and it is counted.
  activated :
      (now later : ℕ) (db : Database)
      → db.faults ≡ []
      → window_timestamp config now ≡ window_timestamp config first
      → (passes (can_activate config caller now later db).0
          ≡ leb (counter window_key db + 1) config.limit)
        × ((can_activate config caller now later db).1 ≡ counted window_key db)
  unfolding can_activate guard window_key
  activated now later db up here =
      rw (named, sym (same_key config (c ∷ id) now first here))
        (one_request config (c ∷ id) now later db up)

  passed_from :
      (requests : List (ℕ × ℕ)) (db : Database)
      → db.faults ≡ []
      → AreIn config (window_timestamp config first) requests
      → passed config caller requests db + cap (counter window_key db) config.limit
        ≡ cap (counter window_key db + length requests) config.limit
  unfolding passed
  passed_from [] db up h = ground arith
  passed_from ((now, later) ∷ rest) db up (here, h) =
      let (verdict, after) = activated now later db up here in
      let behind = passed_from rest (counted window_key db) up h in
      rw (verdict, after) (ground (arith, behind, counter-counted window_key db))

-- Of a caller's requests in one window, with Redis up and nothing counted before, as many pass as
-- there are, up to the limit, whatever the times within the window, if the caller has an identifier
-- of the configured kind.
pub window_limit :
    (config : RateLimitConfig) (caller : Caller) (c : ℕ) (id : Text) (first : ℕ)
    (requests : List (ℕ × ℕ)) (db : Database)
    → get_identifier caller config.key_type ≡ some (c ∷ id)
    → db.faults ≡ []
    → counter (redis_key config (c ∷ id) first) db ≡ 0
    → AreIn config (window_timestamp config first) requests
    → passed config caller requests db ≡ cap (length requests) config.limit
unfolding window_key
window_limit config caller c id first requests db named up zero here =
    ground (arith, passed_from config caller c id first named requests db up here, zero)
