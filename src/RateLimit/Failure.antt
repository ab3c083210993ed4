-- ===== src/RateLimit/Failure.antt =====
-- What the guard does while Redis is down.
use meterplex.Prelude.{ℕ, ◌≡◌, refl, ap, Bool, true, Option, none, some, List, [], ◌∷◌}
use meterplex.Text.{Text}
use meterplex.Billing.State.{Database}
use meterplex.Billing.Monad.{err, redis_error}
use meterplex.Billing.Monad.Keeps.{bind_err, catch_with_step}
use meterplex.Usage.Redis.{incr_by, attempt, add_to_counter}
use meterplex.RateLimit.{
  RateLimitConfig, Caller, get_identifier, redis_key, count_request, judge, fail_open,
  check_identifier, can_activate,
}
use meterplex.RateLimit.Window.{set_expiry, decide, passes}

module _ (config : RateLimitConfig) (now later : ℕ) (rest : List Bool) (db : Database)
    (down : db.faults ≡ true ∷ rest) where
  lost : Database
  lost = record db { faults = rest }

  incr_down : (key : Text) → incr_by key 1 db ≡ (err redis_error, lost)
  unfolding incr_by lost
  incr_down key = ap (λ f. attempt f (add_to_counter key 1) db) down

  count_down : (key : Text) → count_request key db ≡ (err redis_error, lost)
  unfolding count_request set_expiry
  count_down key =
      bind_err (incr_by key 1) (set_expiry key) {db = db} {db' = lost} {e = redis_error}
        (incr_down key)

  judge_down : (identifier : Text) → judge config identifier now later db ≡ (err redis_error, lost)
  unfolding judge decide
  judge_down identifier =
      bind_err (count_request (redis_key config identifier now))
        (decide config identifier now later) {db = db} {db' = lost} {e = redis_error}
        (count_down (redis_key config identifier now))

  check_down : (o : Option Text) → passes (check_identifier config o now later db).0 ≡ true
  check_down none = refl
  check_down (some []) = refl
  check_down (some (c ∷ id)) =
      ap (λ o. passes o.0)
        (catch_with_step (judge config (c ∷ id) now later) fail_open {db = db} {db' = lost}
          {r = err redis_error} (judge_down (c ∷ id)))

-- A request whose counter Redis does not give passes, whoever makes it.
pub redis_down_passes :
    (config : RateLimitConfig) (caller : Caller) (now later : ℕ) (rest : List Bool) (db : Database)
    → db.faults ≡ true ∷ rest
    → passes (can_activate config caller now later db).0 ≡ true
unfolding can_activate
redis_down_passes config caller now later rest db down =
    check_down config now later rest db down (get_identifier caller config.key_type)
