-- ===== src/Accounts/Calls.antt =====
-- The calls of the account services, one after another: `run` is what any sequence of them leaves.
use meterplex.Prelude.{ℕ, String, Bool, true, false, not, Option, List, [], ◌∷◌}
use meterplex.Text.{Text}
use meterplex.Accounts.State.{Accounts, MembershipRole, Env}
use meterplex.Accounts.Tokens.{refresh, logout, logout_all}
use meterplex.Accounts.Passwords.{
  Register, register, login, forgot_password, reset_password, change_password,
}
use meterplex.Accounts.Users
use meterplex.Accounts.Users.{
  CreateUser, UpdateUser, same_role, create_with_membership, update_route,
}
use meterplex.Accounts.Tenants
use meterplex.Accounts.Tenants.{CreateTenant, UpdateTenant, create_with_owner, remove_route}
use meterplex.Accounts.ApiKeys
use meterplex.Accounts.ApiKeys.{authenticate, revoke}
pub mod Closed
pub mod Kept

-- The times of a call are milliseconds, the tenant of a call that of its guard.
pub data Call : Type 0 where
  registered : Register → ℕ → Call
  logged_in : Text → Text → ℕ → Call
  refreshed : Text → ℕ → Call
  logged_out : Text → Call
  logged_out_everywhere : ℕ → Call
  password_forgotten : Text → ℕ → Call
  password_reset : Text → Text → ℕ → Call
  password_changed : ℕ → Text → Text → ℕ → Call
  user_created : CreateUser → Call
  user_added : CreateUser → ℕ → MembershipRole → Call
  user_changed : ℕ → ℕ → Option ℕ → UpdateUser → Call
  tenant_created : CreateTenant → Call
  tenant_added : CreateTenant → ℕ → Call
  tenant_changed : ℕ → ℕ → UpdateTenant → Call
  tenant_cancelled : ℕ → ℕ → Call
  key_added : String → Option ℕ → ℕ → ℕ → ℕ → Call
  key_revoked : ℕ → ℕ → Call
  key_shown : Text → ℕ → Call

-- Whether a call leaves alone who owns the tenants that are there, and makes none without an owner.
-- The routes only make such calls: they add users as developers, and tenants with an owner.
abbrev pub spares_owners : Call → Bool
spares_owners (tenant_created dto) = false
spares_owners (user_added dto tenant role) = not (same_role role MembershipRole.owner)
spares_owners other = true

module _ (env : Env) where
  unfoldable pub step : Call → Accounts → Accounts
  unfolding register login refresh logout logout_all forgot_password reset_password change_password
      Users.create create_with_membership update_route Tenants.create create_with_owner
      Tenants.update_route remove_route ApiKeys.create revoke authenticate
  step (registered dto now) s = (register env dto now s).1
  step (logged_in email password now) s = (login env email password now s).1
  step (refreshed token now) s = (refresh env token now s).1
  step (logged_out token) s = (logout env token s).1
  step (logged_out_everywhere user) s = (logout_all user s).1
  step (password_forgotten email now) s = (forgot_password env email now s).1
  step (password_reset token password now) s = (reset_password env token password now s).1
  step (password_changed user old new now) s = (change_password env user old new now s).1
  step (user_created dto) s = (Users.create env dto s).1
  step (user_added dto tenant role) s = (create_with_membership env dto tenant role s).1
  step (user_changed id caller tenant dto) s = (update_route id caller tenant dto s).1
  step (tenant_created dto) s = (Tenants.create dto s).1
  step (tenant_added dto user) s = (create_with_owner dto user s).1
  step (tenant_changed id tenant dto) s = (Tenants.update_route id tenant dto s).1
  step (tenant_cancelled id tenant) s = (remove_route id tenant s).1
  step (key_added name days tenant user now) s = (ApiKeys.create env name days tenant user now s).1
  step (key_revoked id tenant) s = (revoke id tenant s).1
  step (key_shown raw now) s = (authenticate env raw now s).1

  unfoldable pub run : List Call → Accounts → Accounts
  unfolding step
  run [] s = s
  run (c ∷ calls) s = run calls (step c s)
