-- ===== src/Accounts/ApiKeys.antt =====
-- src/modules/api-keys/api-keys.service.ts and guards/api-key-auth.guard.ts. The updates that are
-- not awaited run before the call ends.
use meterplex.Prelude.{
  ℕ, zero, suc, ◌+◌, ◌*◌, String, Bool, true, false, not, ◌&&◌, Option, none, some, [], ◌∷◌, ◌++◌,
  ◌==◌, ltb, if◌then◌else◌,
}
use meterplex.Prelude.Table
use meterplex.Prelude.Service.{gets, throw_if, throw, pure, or_throw, rethrow, catch, ◌>>=◌, ◌>>◌}
use meterplex.Text.{Text, codes, is_prefix}
use meterplex.Accounts.State.{
  Accounts, ApiKey, ApiKeyStatus, Exec, Env, api_key_not_found, api_key_expired,
  authorization_required, invalid_key_format, record_not_found,
}
use meterplex.Accounts.Rows.{draw, create_key, find_key, update_key}
use meterplex.Accounts.Passwords.{on_not_found}
pub mod Revocation
pub mod Creation

abbrev pub key_prefix : Text
key_prefix = codes "mp_live_"

abbrev pub key_random_bytes : ℕ
key_random_bytes = 30

abbrev pub stored_prefix_length : ℕ
stored_prefix_length = 10

-- `s.substring(0, n)` and `s.slice(n)`
unfoldable pub take : ℕ → Text → Text
take zero s = []
take (suc n) [] = []
take (suc n) (c ∷ s) = c ∷ take n s

unfoldable pub drop : ℕ → Text → Text
drop zero s = s
drop (suc n) [] = []
drop (suc n) (c ∷ s) = drop n s

-- No `expires_in_days`, or 0, is a key that does not expire.
abbrev pub expiry : Option ℕ → ℕ → Option ℕ
expiry none now = none
expiry (some days) now = if days == 0 then none else some (now + days * 24 * 60 * 60 * 1000)

abbrev pub is_active : ApiKeyStatus → Bool
is_active ApiKeyStatus.active = true
is_active ApiKeyStatus.revoked = false
is_active ApiKeyStatus.expired = false

-- `apiKey.expiresAt && apiKey.expiresAt < new Date()`
abbrev pub is_past : Option ℕ → ℕ → Bool
is_past none now = false
is_past (some at) now = ltb at now

abbrev pub set_status : ApiKeyStatus → ApiKey → ApiKey
set_status status k = record k { status = status }

abbrev pub touch : ℕ → ApiKey → ApiKey
touch now k = record k { last_used_at = some now }

-- `update(…).catch(…)`: a failure is only logged
unfoldable pub best_effort : ℕ → (ApiKey → ApiKey) → Exec (Unit {0})
unfolding update_key
best_effort id f = catch (do update_key id f; pure tt) (λ e. pure tt)

-- `findFirst({ where: { id, tenantId } })`
unfoldable pub find_of_tenant : ℕ → ℕ → Accounts → Option (ℕ × ApiKey)
find_of_tenant id tenant s = Table.find_first (λ j k. j == id && k.tenant_id == tenant) s.api_keys

-- `revoke`
unfoldable pub find_owned : ℕ → ℕ → Exec ApiKey
unfolding find_of_tenant
find_owned id tenant = do
  row ← gets (find_of_tenant id tenant)
  key ← or_throw row record_not_found
  pure key.1

unfoldable pub revoke : ℕ → ℕ → Exec ApiKey
unfolding find_owned update_key
revoke id tenant = do
  rethrow (on_not_found api_key_not_found) (find_owned id tenant)
  update_key id (set_status ApiKeyStatus.revoked)

-- `authenticate` with the key that is found: its tenant and its id
unfoldable pub use_key : ℕ → ℕ × ApiKey → Exec (ℕ × ℕ)
unfolding best_effort
use_key now (id, key) = do
  throw_if (not (is_active key.status)) api_key_not_found
  if is_past key.expires_at now
      then (do best_effort id (set_status ApiKeyStatus.expired); throw api_key_expired)
      else (do best_effort id (touch now); pure (key.tenant_id, id))

module _ (env : Env) where
  abbrev pub hash_key : Text → Text
  hash_key key = env.sha256 key

  abbrev pub raw_key : ℕ → Text
  raw_key d = key_prefix ++ env.random_bytes d key_random_bytes

  abbrev pub stored_key : String → Option ℕ → ℕ → ℕ → ℕ → ℕ → ApiKey
  stored_key name days tenant user now d = record {
    tenant_id = tenant;
    created_by_user_id = user;
    key_prefix = take stored_prefix_length (raw_key d);
    key_hash = hash_key (raw_key d);
    name = name;
    status = ApiKeyStatus.active;
    expires_at = expiry days now;
    last_used_at = none;
  }

  -- The id of the key and the key itself
  unfoldable pub create : String → Option ℕ → ℕ → ℕ → ℕ → Exec (ℕ × Text)
  unfolding draw create_key take
  create name days tenant user now = do
    d ← draw
    id ← create_key (stored_key name days tenant user now d)
    pure (id, raw_key d)

  unfoldable pub authenticate : Text → ℕ → Exec (ℕ × ℕ)
  unfolding find_key use_key
  authenticate raw now = rethrow (on_not_found api_key_not_found) (do
    row ← gets (find_key (hash_key raw))
    key ← or_throw row record_not_found
    use_key now key)

  -- `authHeader.startsWith('Bearer ') ? authHeader.slice(7) : authHeader`
  abbrev pub key_of_header : Text → Text
  key_of_header header = if is_prefix (codes "Bearer ") header then drop 7 header else header

  -- `ApiKeyAuthGuard.canActivate`; an empty header is no header
  unfoldable pub check_key : Text → ℕ → Exec (ℕ × ℕ)
  unfolding authenticate is_prefix drop
  check_key header now = do
    throw_if (not (is_prefix key_prefix (key_of_header header))) invalid_key_format
    authenticate (key_of_header header) now

  abbrev pub can_activate : Option Text → ℕ → Exec (ℕ × ℕ)
  can_activate none now = throw authorization_required
  can_activate (some []) now = throw authorization_required
  can_activate (some (c ∷ header)) now = check_key (c ∷ header) now
