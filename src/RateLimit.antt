-- ===== src/RateLimit.antt =====
-- src/common/guards/rate-limit.guard.ts over the counters of Redis. Times are in milliseconds, and
-- `later` is the time after the calls of Redis.
use meterplex.Prelude.{
  ℕ, ◌+◌, ◌-◌, ◌*◌, ◌/◌, Bool, true, false, Option, none, some, List, [], ◌∷◌, ◌++◌, ◌==◌, ltb, leb,
  get_or, or_else, if◌then◌else◌,
}
use meterplex.Text.{Text, codes, show}
use meterplex.Billing.Monad.{Exec, Error, too_many_requests, pure, throw, catch_with, ◌>>=◌, ◌>>◌}
use meterplex.Usage.Redis.{incr_by, expire, cache_read}
pub mod Window
pub mod Failure
mod Tests

pub data KeyType : Type 0 where
  ip user tenant api_key : KeyType

pub record RateLimitConfig : Type 0 where
  pub limit : ℕ
  pub window_seconds : ℕ
  pub key_type : KeyType

-- `RATE_LIMITS`
abbrev pub auth : RateLimitConfig
auth = record { limit = 10; window_seconds = 60; key_type = KeyType.ip }

abbrev pub auth_strict : RateLimitConfig
auth_strict = record { limit = 5; window_seconds = 60; key_type = KeyType.ip }

abbrev pub usage : RateLimitConfig
usage = record { limit = 100; window_seconds = 60; key_type = KeyType.tenant }

abbrev pub invoice : RateLimitConfig
invoice = record { limit = 5; window_seconds = 60; key_type = KeyType.tenant }

-- `config?.limit ?? this.defaultLimit` and so on
abbrev pub config_of : Option RateLimitConfig → ℕ → ℕ → RateLimitConfig
config_of none limit window = record {
  limit = limit;
  window_seconds = window;
  key_type = KeyType.user;
}
config_of (some config) limit window = config

-- What the guard reads of a request
pub record Caller : Type 0 where
  pub ip : Option Text
  pub remote_address : Option Text
  pub user_id : Option Text
  pub api_key_id : Option Text
  pub tenant_header : Option Text

unfoldable pub get_identifier : Caller → KeyType → Option Text
get_identifier c KeyType.ip = or_else c.ip c.remote_address
get_identifier c KeyType.user = c.user_id
get_identifier c KeyType.tenant = c.tenant_header
get_identifier c KeyType.api_key = or_else c.api_key_id c.user_id

abbrev pub key_type_text : KeyType → Text
key_type_text KeyType.ip = codes "ip"
key_type_text KeyType.user = codes "user"
key_type_text KeyType.tenant = codes "tenant"
key_type_text KeyType.api_key = codes "apiKey"

abbrev pub window_timestamp : RateLimitConfig → ℕ → ℕ
window_timestamp config now = now / 1000 / config.window_seconds

unfoldable pub redis_key : RateLimitConfig → Text → ℕ → Text
unfolding show
redis_key config identifier now =
    codes "ratelimit:"
    ++ (key_type_text config.key_type
        ++ (codes ":" ++ (identifier ++ (codes ":" ++ show (window_timestamp config now)))))

abbrev pub reset_at : RateLimitConfig → ℕ → ℕ
reset_at config now = (window_timestamp config now + 1) * config.window_seconds

abbrev pub max_one : ℕ → ℕ
max_one n = if leb 1 n then n else 1

-- The X-RateLimit headers
pub record Headers : Type 0 where
  pub limit : ℕ
  pub remaining : ℕ
  pub reset : ℕ

abbrev pub headers_of : RateLimitConfig → ℕ → ℕ → Headers
headers_of config now current = record {
  limit = config.limit;
  remaining = config.limit - current;
  reset = reset_at config now;
}

-- `Retry-After`; a time behind the reset gives a difference below 1
abbrev pub retry_after : RateLimitConfig → ℕ → ℕ → ℕ
retry_after config now later = max_one (reset_at config now - later / 1000)

-- The counter of the request's window, set to expire by the first request
unfoldable pub count_request : Text → Exec ℕ
unfolding incr_by expire
count_request key = do
  current ← incr_by key 1
  if current == 1 then (do expire key; pure current) else pure current

-- the `try` of `canActivate`
unfoldable pub judge : RateLimitConfig → Text → ℕ → ℕ → Exec (Option Headers)
unfolding count_request redis_key
judge config identifier now later = do
  current ← count_request (redis_key config identifier now)
  if ltb config.limit current
      then throw (too_many_requests (retry_after config now later))
      else pure (some (headers_of config now current))

-- the `catch`: the guard's own refusal goes on, and a failure of Redis lets the request pass
abbrev pub fail_open : Error → Exec (Option Headers)
fail_open (too_many_requests seconds) = throw (too_many_requests seconds)
fail_open other = pure none

abbrev pub check_identifier : RateLimitConfig → Option Text → ℕ → ℕ → Exec (Option Headers)
check_identifier config none now later = pure none
check_identifier config (some []) now later = pure none
check_identifier config (some (c ∷ id)) now later =
    catch_with (judge config (c ∷ id) now later) fail_open

-- `canActivate`: a request that passes has the headers, if its counter was read
unfoldable pub can_activate : RateLimitConfig → Caller → ℕ → ℕ → Exec (Option Headers)
unfolding get_identifier judge
can_activate config caller now later =
    check_identifier config (get_identifier caller config.key_type) now later
