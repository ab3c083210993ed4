-- ===== src/Accounts/State.antt =====
-- The tables of accounts (prisma/schema.prisma) and the errors of their services. A uuid is a
-- number, and a time is in milliseconds.
use meterplex.Prelude.{ℕ, String, Bool, Option, List}
use meterplex.Prelude.Table.{Table}
use meterplex.Prelude.Service.{Service}
use meterplex.Text.{Text}

pub data TenantStatus : Type 0 where
  active suspended cancelled : TenantStatus

pub record Tenant : Type 0 where
  pub name : String
  pub slug : Text
  pub status : TenantStatus

pub record User : Type 0 where
  pub email : Text
  pub password_hash : Text
  pub first_name : String
  pub last_name : String
  pub is_active : Bool
  pub is_platform_admin : Bool

pub data MembershipRole : Type 0 where
  owner admin developer billing : MembershipRole

pub record Membership : Type 0 where
  pub user_id : ℕ
  pub tenant_id : ℕ
  pub role : MembershipRole

pub data ApiKeyStatus : Type 0 where
  active revoked expired : ApiKeyStatus

pub record ApiKey : Type 0 where
  pub tenant_id : ℕ
  pub created_by_user_id : ℕ
  pub key_prefix : Text
  pub key_hash : Text
  pub name : String
  pub status : ApiKeyStatus
  pub expires_at : Option ℕ
  pub last_used_at : Option ℕ

pub record RefreshToken : Type 0 where
  pub user_id : ℕ
  pub token_hash : Text
  pub expires_at : ℕ
  pub is_revoked : Bool

pub record PasswordResetToken : Type 0 where
  pub user_id : ℕ
  pub token_hash : Text
  pub expires_at : ℕ
  pub is_used : Bool

-- `next_id` is the next uuid, and `draws` counts the calls of the random generator.
pub record Accounts : Type 0 where
  pub users : Table User
  pub tenants : Table Tenant
  pub memberships : Table Membership
  pub api_keys : Table ApiKey
  pub refresh_tokens : Table RefreshToken
  pub reset_tokens : Table PasswordResetToken
  pub next_id : ℕ
  pub draws : ℕ

-- The unique indexes of the tables.
pub data Index : Type 0 where
  user_email tenant_slug membership_pair key_hash token_hash : Index

-- `record_not_found`, `unique_violation` and `foreign_key_violation` are Prisma's P2025, P2002 and
-- P2003.
pub data Error : Type 0 where
  record_not_found foreign_key_violation : Error
  unique_violation : Index → Error
  email_exists slug_exists unique_constraint : Error
  invalid_credentials inactive_account : Error
  token_invalid_or_expired refresh_token_invalid refresh_token_revoked : Error
  refresh_token_expired : Error
  reset_token_already_used reset_token_expired invalid_reset_token : Error
  invalid_current_password auth_user_not_found : Error
  user_not_found tenant_id_not_found tenant_slug_not_found membership_exists : Error
  not_tenant_member user_insufficient_role deactivate_requires_owner : Error
  target_not_in_tenant cannot_deactivate_self update_requires_tenant id_mismatch : Error
  api_key_not_found api_key_expired : Error
  authentication_required tenant_header_required invalid_tenant_uuid : Error
  no_tenant_access role_required platform_admin_required account_disabled : Error
  authorization_required invalid_key_format : Error

abbrev pub Exec : Type 0 → Type 0
Exec A = Service Accounts Error A

-- The claims of a token.
pub record JwtPayload : Type 0 where
  pub sub : ℕ
  pub email : Text
  pub jti : Text

-- The libraries that the services call, and JWT_REFRESH_EXPIRATION. `random_bytes d n` is what the `d`-th draw gives for `n`
-- bytes, as text; a draw also salts a password.
pub record Env : Type 0 where
  pub to_lower_case : Text → Text
  pub random_bytes : ℕ → ℕ → Text
  pub bcrypt_hash : ℕ → Text → ℕ → Text
  pub bcrypt_compare : Text → Text → Bool
  pub sha256 : Text → Text
  pub sign : JwtPayload → ℕ → Text
  pub sign_refresh : JwtPayload → ℕ → ℕ → Text
  pub verify_refresh : Text → ℕ → Option JwtPayload
  pub violation_fields : Index → List String
  pub refresh_expiration : Text
