-- ===== src/Accounts/Passwords.antt =====
-- src/modules/auth/auth.service.ts: registration, login, and the three ways to set a password.
use meterplex.Prelude.{
  ℕ, ◌+◌, ◌*◌, String, Bool, true, false, not, ◌&&◌, Option, none, some, List, [], ◌∷◌, ltb, ◌==◌,
  ◌||◌, str_eq, if◌then◌else◌,
}
use meterplex.Prelude.Table
use meterplex.Prelude.Service.{
  gets, throw_if, modify, pure, or_throw, transaction, rethrow, ◌>>=◌, ◌>>◌,
}
use meterplex.Text.{Text}
use meterplex.Accounts.State.{
  Accounts, User, Tenant, MembershipRole, TenantStatus, PasswordResetToken, Exec, Env, Error,
  record_not_found, unique_violation, email_exists, slug_exists, unique_constraint,
  invalid_credentials, inactive_account, reset_token_already_used, reset_token_expired,
  invalid_reset_token, invalid_current_password, auth_user_not_found,
}
use meterplex.Accounts.Rows.{
  draw, create_user, create_tenant, create_membership, create_reset, find_user, find_reset,
  update_user, member,
}
use meterplex.Accounts.Tokens.{Tokens, generate_tokens, revoke_live}

pub record Register : Type 0 where
  pub email : Text
  pub password : Text
  pub first_name : String
  pub last_name : String
  pub tenant_name : String
  pub tenant_slug : Text

abbrev pub includes : String → List String → Bool
includes name [] = false
includes name (f ∷ fields) = str_eq f name || includes name fields

-- `isNotFoundError(error)` in a `catch`
abbrev pub on_not_found : Error → Error → Error
on_not_found e record_not_found = e
on_not_found e other = other

abbrev pub reset_token_expiry_ms : ℕ
reset_token_expiry_ms = 15 * 60 * 1000

abbrev pub salt_rounds : ℕ
salt_rounds = 12

abbrev pub is_unused : ℕ → PasswordResetToken → Bool
is_unused user t = t.user_id == user && not t.is_used

abbrev pub use_reset : PasswordResetToken → PasswordResetToken
use_reset t = record t { is_used = true }

abbrev pub invalidate : ℕ → Accounts → Accounts
invalidate user s = record s {
  reset_tokens = Table.update_many (is_unused user) use_reset s.reset_tokens;
}

abbrev pub mark_used : ℕ → Accounts → Accounts
mark_used id s = record s { reset_tokens = Table.update id use_reset s.reset_tokens }

abbrev pub set_password : Text → User → User
set_password hash u = record u { password_hash = hash }

module _ (env : Env) where
  -- `bcrypt.hash(password, SALT_ROUNDS)`
  unfoldable pub hash_password : Text → Exec Text
  unfolding draw
  hash_password password = do d ← draw; pure (env.bcrypt_hash d password salt_rounds)

  abbrev pub violated : List String → Error
  violated fields =
      if includes "email" fields
      then email_exists
      else if includes "slug" fields
      then slug_exists
      else unique_constraint

  abbrev pub register_error : Error → Error
  register_error (unique_violation index) = violated (env.violation_fields index)
  register_error other = other

  abbrev pub registered_user : Register → Text → User
  registered_user dto hash = record {
    email = env.to_lower_case dto.email;
    password_hash = hash;
    first_name = dto.first_name;
    last_name = dto.last_name;
    is_active = true;
    is_platform_admin = false;
  }

  abbrev pub registered_tenant : Register → Tenant
  registered_tenant dto = record {
    name = dto.tenant_name;
    slug = dto.tenant_slug;
    status = TenantStatus.active;
  }

  -- The transaction of `register`
  unfoldable pub create_account : Register → Exec (ℕ × ℕ)
  unfolding hash_password create_user create_tenant create_membership
  create_account dto = transaction (do
    hash ← hash_password dto.password
    user ← create_user (registered_user dto hash)
    tenant ← create_tenant (registered_tenant dto)
    create_membership (member user tenant MembershipRole.owner)
    pure (user, tenant))

  unfoldable pub register : Register → ℕ → Exec (Tokens × ℕ × ℕ)
  unfolding create_account generate_tokens
  register dto now = do
    (user, tenant) ← rethrow register_error (create_account dto)
    tokens ← generate_tokens env user (env.to_lower_case dto.email) now
    pure (tokens, user, tenant)

  -- `login` with the user that is found
  unfoldable pub check_password : Text → ℕ → ℕ × User → Exec (Tokens × ℕ)
  unfolding generate_tokens
  check_password password now (id, user) = do
    throw_if (not user.is_active) inactive_account
    throw_if (not (env.bcrypt_compare password user.password_hash)) invalid_credentials
    tokens ← generate_tokens env id user.email now
    pure (tokens, id)

  unfoldable pub login : Text → Text → ℕ → Exec (Tokens × ℕ)
  unfolding find_user check_password
  login email password now = do
    row ← gets (find_user (env.to_lower_case email))
    user ← or_throw row invalid_credentials
    check_password password now user

  abbrev pub reset_of : ℕ → ℕ → ℕ → PasswordResetToken
  reset_of user now d = record {
    user_id = user;
    token_hash = env.sha256 (env.random_bytes d 32);
    expires_at = now + reset_token_expiry_ms;
    is_used = false;
  }

  -- `forgotPassword` for a user: the reset token
  unfoldable pub issue_reset : ℕ → ℕ → Exec Text
  unfolding draw create_reset Table.update_many
  issue_reset user now = do
    modify (invalidate user)
    d ← draw
    create_reset (reset_of user now d)
    pure (env.random_bytes d 32)

  abbrev pub reset_for : Option (ℕ × User) → ℕ → Exec (Option Text)
  reset_for none now = pure none
  reset_for (some (id, user)) now = do token ← issue_reset id now; pure (some token)

  unfoldable pub forgot_password : Text → ℕ → Exec (Option Text)
  unfolding find_user issue_reset
  forgot_password email now = do row ← gets (find_user (env.to_lower_case email)); reset_for row now

  -- `resetPassword` with the stored token; the password is hashed before the transaction
  unfoldable pub apply_reset : Text → ℕ → ℕ × PasswordResetToken → Exec (Unit {0})
  unfolding hash_password update_user Table.update Table.update_many
  apply_reset password now (id, reset) = do
    throw_if reset.is_used reset_token_already_used
    throw_if (ltb reset.expires_at now) reset_token_expired
    hash ← hash_password password
    transaction (do
      update_user reset.user_id (set_password hash)
      modify (mark_used id)
      modify (revoke_live reset.user_id))

  unfoldable pub reset_password : Text → Text → ℕ → Exec (Unit {0})
  unfolding find_reset apply_reset
  reset_password token password now = rethrow (on_not_found invalid_reset_token) (do
    row ← gets (find_reset (env.sha256 token))
    reset ← or_throw row record_not_found
    apply_reset password now reset)

  -- `changePassword` of the user that is found
  unfoldable pub replace_password : ℕ → Text → Text → ℕ → User → Exec Tokens
  unfolding hash_password update_user generate_tokens Table.update_many
  replace_password id current password now user = do
    throw_if (not (env.bcrypt_compare current user.password_hash)) invalid_current_password
    hash ← hash_password password
    transaction (do update_user id (set_password hash); modify (revoke_live id))
    generate_tokens env id user.email now

  unfoldable pub change_password : ℕ → Text → Text → ℕ → Exec Tokens
  unfolding replace_password Table.lookup
  change_password id current password now = rethrow (on_not_found auth_user_not_found) (do
    row ← gets (λ s. Table.lookup id s.users)
    user ← or_throw row record_not_found
    replace_password id current password now user)
