-- ===== src/Accounts/Tokens.antt =====
-- src/modules/auth/auth.service.ts: access and refresh tokens. The clock is UTC, so that `setDate`
-- adds days of 24 hours; the check of `storedToken` after `findUniqueOrThrow` never fires.
use meterplex.Prelude.{
  ℕ, ◌+◌, ◌*◌, Bool, true, false, not, ◌&&◌, Option, none, some, [], ◌∷◌, ltb, ◌==◌, if◌then◌else◌,
}
use meterplex.Prelude.Table
use meterplex.Prelude.Service.{gets, throw_if, throw, modify, pure, or_throw, ◌>>=◌, ◌>>◌}
use meterplex.Text.{Text}
use meterplex.Text.Decimal.{is_digit, read_from}
use meterplex.Accounts.State.{
  Accounts, RefreshToken, JwtPayload, Exec, Env, token_invalid_or_expired, record_not_found,
  refresh_token_revoked, refresh_token_expired,
}
use meterplex.Accounts.Rows.{draw, create_token, find_token, has_token}
pub mod Expiry

-- `/^(\d+)(.)$/`: a number and the one character behind it
abbrev pub one_unit : ℕ → Text → Option (ℕ × ℕ)
one_unit value [] = none
one_unit value (u ∷ []) = some (value, u)
one_unit value (u ∷ c ∷ more) = none

unfoldable pub split_duration : Text → Option (ℕ × ℕ)
unfolding is_digit read_from
split_duration [] = none
split_duration (c ∷ t) =
    let (value, rest) = read_from 0 (c ∷ t) in if is_digit c then one_unit value rest else none

abbrev pub week_seconds : ℕ
week_seconds = 7 * 24 * 60 * 60

-- `switch (unit)`; another unit does not match, which falls back to 7 days too
abbrev pub seconds_of : Option (ℕ × ℕ) → ℕ
seconds_of none = week_seconds
seconds_of (some (value, unit)) =
    if unit == b'd'
    then value * 24 * 60 * 60
    else if unit == b'h'
    then value * 60 * 60
    else if unit == b'm'
    then value * 60
    else if unit == b's'
    then value
    else week_seconds

unfoldable pub parse_expiry_to_seconds : Text → ℕ
unfolding split_duration
parse_expiry_to_seconds duration = seconds_of (split_duration duration)

-- The units of `/^(\d+)(d|h|m)$/`: there are no seconds here
abbrev pub date_after : ℕ → Option (ℕ × ℕ) → ℕ
date_after now none = now + week_seconds * 1000
date_after now (some (value, unit)) =
    if unit == b'd'
    then now + value * 86400000
    else if unit == b'h'
    then now + value * 3600000
    else if unit == b'm'
    then now + value * 60000
    else now + week_seconds * 1000

unfoldable pub calculate_expiry : Text → ℕ → ℕ
unfolding split_duration
calculate_expiry duration now = date_after now (split_duration duration)

pub record Tokens : Type 0 where
  pub access_token : Text
  pub refresh_token : Text

abbrev pub is_live : ℕ → RefreshToken → Bool
is_live user t = t.user_id == user && not t.is_revoked

abbrev pub revoke_token : RefreshToken → RefreshToken
revoke_token t = record t { is_revoked = true }

abbrev pub revoke_live : ℕ → Accounts → Accounts
revoke_live user s = record s {
  refresh_tokens = Table.update_many (is_live user) revoke_token s.refresh_tokens;
}

unfoldable pub revoke_all_user_refresh_tokens : ℕ → Exec (Unit {0})
unfolding Table.update_many
revoke_all_user_refresh_tokens user = modify (revoke_live user)

unfoldable pub logout_all : ℕ → Exec (Unit {0})
unfolding revoke_all_user_refresh_tokens
logout_all user = revoke_all_user_refresh_tokens user

-- The row of a refresh token is updated by its id.
abbrev pub revoke_row : ℕ → Accounts → Accounts
revoke_row id s = record s { refresh_tokens = Table.update id revoke_token s.refresh_tokens }

module _ (env : Env) where
  abbrev pub hash_token : Text → Text
  hash_token t = env.sha256 t

  -- What `generateTokens` signs and stores, with its draw from the generator
  abbrev pub payload_of : ℕ → Text → ℕ → JwtPayload
  payload_of user email d = record { sub = user; email = email; jti = env.random_bytes d 16 }

  abbrev pub tokens_of : ℕ → Text → ℕ → ℕ → Tokens
  tokens_of user email now d = record {
    access_token = env.sign (payload_of user email d) now;
    refresh_token =
        env.sign_refresh (payload_of user email d) (parse_expiry_to_seconds env.refresh_expiration)
          now;
  }

  abbrev pub stored_of : ℕ → Text → ℕ → ℕ → RefreshToken
  stored_of user email now d = record {
    user_id = user;
    token_hash = hash_token (tokens_of user email now d).refresh_token;
    expires_at = calculate_expiry env.refresh_expiration now;
    is_revoked = false;
  }

  unfoldable pub generate_tokens : ℕ → Text → ℕ → Exec Tokens
  unfolding draw create_token parse_expiry_to_seconds calculate_expiry
  generate_tokens user email now = do
    d ← draw
    create_token (stored_of user email now d)
    pure (tokens_of user email now d)

  -- Rotation: the old token is revoked, then a pair is issued.
  unfoldable pub rotate : ℕ → JwtPayload → ℕ → Exec Tokens
  unfolding generate_tokens Table.update
  rotate id payload now = do modify (revoke_row id); generate_tokens payload.sub payload.email now

  -- `refresh` with the stored token
  unfoldable pub use_token : JwtPayload → ℕ → ℕ × RefreshToken → Exec Tokens
  unfolding revoke_all_user_refresh_tokens rotate
  use_token payload now (id, stored) =
      if stored.is_revoked
      then (do revoke_all_user_refresh_tokens payload.sub; throw refresh_token_revoked)
      else do throw_if (ltb stored.expires_at now) refresh_token_expired; rotate id payload now

  unfoldable pub refresh : Text → ℕ → Exec Tokens
  unfolding find_token use_token
  refresh token now = do
    payload ← or_throw (env.verify_refresh token now) token_invalid_or_expired
    row ← gets (find_token (hash_token token))
    stored ← or_throw row record_not_found
    use_token payload now stored

  abbrev pub revoke_hash : Text → Accounts → Accounts
  revoke_hash hash s = record s {
    refresh_tokens =
        Table.update_many (λ t. has_token hash t && not t.is_revoked) revoke_token s.refresh_tokens;
  }

  unfoldable pub logout : Text → Exec (Unit {0})
  unfolding Table.update_many
  logout token = modify (revoke_hash (hash_token token))
