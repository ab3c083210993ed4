-- ===== src/Accounts/Calls/Kept.antt =====
-- Every call of the account services keeps what its writes keep.
use meterplex.Prelude.{Bool, true, false, not, List, [], ◌∷◌, ◌≡◌, ◌⊎◌, inl, inr, refl, All, arith}
use meterplex.Accounts.State.{Accounts, MembershipRole, Env}
use meterplex.Accounts.Users.{same_role}
use meterplex.Accounts.Calls
use meterplex.Accounts.Calls.{Call, spares_owners, step, run}
use meterplex.Accounts.Calls.Closed.{IsClosed}
use meterplex.Accounts.Calls.Kept.Tokens.{refresh-Keeps, logout-Keeps, logout_all-Keeps}
use meterplex.Accounts.Calls.Kept.Passwords.{
  register-Keeps, login-Keeps, forgot_password-Keeps, reset_password-Keeps, change_password-Keeps,
}
use meterplex.Accounts.Calls.Kept.Users.{
  update_route-Keeps, create_with_owner-Keeps, tenant_route-Keeps, remove_route-Keeps,
  create_with_membership-Keeps, tenant_created-Keeps, user_created-Keeps,
}
use meterplex.Accounts.Calls.Kept.ApiKeys.{revoke-Keeps, authenticate-Keeps, key_created-Keeps}
pub mod Tokens
pub mod Passwords
pub mod Users
pub mod ApiKeys

module _ {every : Bool} (P : Accounts → Type 0) (c : IsClosed every P) (env : Env) where
  spared :
      (role : MembershipRole)
      → (every ≡ true) ⊎ (not (same_role role MembershipRole.owner) ≡ true)
      → (every ≡ true) ⊎ (same_role role MembershipRole.owner ≡ false)
  spared role (inl all) = inl all
  spared role (inr may) = inr (ground (arith, may))

  pub step_keeps :
      (call : Call) (s : Accounts)
      → (every ≡ true) ⊎ (spares_owners call ≡ true)
      → P s
      → P (step env call s)
  unfolding step
  step_keeps (Call.registered dto now) s may h = (register-Keeps P c env dto now).at s h
  step_keeps (Call.logged_in email password now) s may h =
      (login-Keeps P c env email password now).at s h
  step_keeps (Call.refreshed token now) s may h = (refresh-Keeps P c env token now).at s h
  step_keeps (Call.logged_out token) s may h = (logout-Keeps P c env token).at s h
  step_keeps (Call.logged_out_everywhere user) s may h = (logout_all-Keeps P c env user).at s h
  step_keeps (Call.password_forgotten email now) s may h =
      (forgot_password-Keeps P c env email now).at s h
  step_keeps (Call.password_reset token password now) s may h =
      (reset_password-Keeps P c env token password now).at s h
  step_keeps (Call.password_changed user old new now) s may h =
      (change_password-Keeps P c env user old new now).at s h
  step_keeps (Call.user_created dto) s may h = (user_created-Keeps P c env dto).at s h
  step_keeps (Call.user_added dto tenant role) s may h =
      (create_with_membership-Keeps P c env role (spared role may) dto tenant).at s h
  step_keeps (Call.user_changed id caller tenant dto) s may h =
      (update_route-Keeps P c id caller tenant dto).at s h
  step_keeps (Call.tenant_created dto) s (inl all) h = (tenant_created-Keeps P c all dto).at s h
  step_keeps (Call.tenant_created dto) s (inr may) h = absurd cc
  step_keeps (Call.tenant_added dto user) s may h = (create_with_owner-Keeps P c dto user).at s h
  step_keeps (Call.tenant_changed id tenant dto) s may h =
      (tenant_route-Keeps P c id tenant dto).at s h
  step_keeps (Call.tenant_cancelled id tenant) s may h = (remove_route-Keeps P c id tenant).at s h
  step_keeps (Call.key_added name days tenant user now) s may h =
      (key_created-Keeps P c env name days tenant user now).at s h
  step_keeps (Call.key_revoked id tenant) s may h = (revoke-Keeps P c id tenant).at s h
  step_keeps (Call.key_shown raw now) s may h = (authenticate-Keeps P c env raw now).at s h

-- What each write keeps, any sequence of calls keeps.
pub run_keeps :
    (P : Accounts → Type 0)
    → IsClosed true P
    → (env : Env) (calls : List Call) (s : Accounts) → P s
    → P (run env calls s)
unfolding run
run_keeps P c env [] s h = h
run_keeps P c env (call ∷ calls) s h =
    run_keeps P c env calls (step env call s) (step_keeps P c env call s (inl refl) h)

-- What the other writes keep, any sequence of calls that spare the owners keeps.
pub run_spares :
    (P : Accounts → Type 0)
    → IsClosed false P
    → (env : Env) (calls : List Call) (s : Accounts) → All (λ call. spares_owners call ≡ true) calls
    → P s
    → P (run env calls s)
unfolding run
run_spares P c env [] s spare h = h
run_spares P c env (call ∷ calls) s (first, spare) h =
    run_spares P c env calls (step env call s) spare (step_keeps P c env call s (inr first) h)
