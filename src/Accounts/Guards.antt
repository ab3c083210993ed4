-- ===== src/Accounts/Guards.antt =====
-- The guards in front of a route: src/modules/auth/strategies/jwt.strategy.ts,
-- src/common/guards/tenant.guard.ts, roles.guard.ts and platform-admin.guard.ts. `uuid_key` gives
-- the number that stands for a uuid.
use meterplex.Prelude.{
  ℕ, zero, suc, Bool, true, false, not, ◌&&◌, ◌||◌, Option, none, some, List, [], ◌∷◌, ◌==◌, leb,
}
use meterplex.Prelude.Table
use meterplex.Prelude.Service.{gets, throw_if, throw, pure, or_throw, ◌>>=◌, ◌>>◌}
use meterplex.Text.{Text}
use meterplex.Text.Decimal.{is_digit}
use meterplex.Accounts.State.{
  User, Membership, MembershipRole, JwtPayload, Exec, authentication_required,
  tenant_header_required, invalid_tenant_uuid, no_tenant_access, role_required,
  platform_admin_required, account_disabled,
}
use meterplex.Accounts.Rows.{find_membership}
use meterplex.Accounts.Users.{includes_role}
pub mod Access

-- What the guards read and attach; an absent header and an empty one are both refused.
pub record Request : Type 0 where
  pub user : Option (ℕ × User)
  pub tenant_header : Text
  pub tenant_id : Option ℕ
  pub membership : Option Membership

abbrev pub is_hex : ℕ → Bool
is_hex c = is_digit c || (leb b'a' c && leb c b'f') || (leb b'A' c && leb c b'F')

-- `[0-9a-f]{n}` without case, and what is behind it
unfoldable pub hex_run : ℕ → Text → Option Text
unfolding is_digit
hex_run zero t = some t
hex_run (suc n) [] = none
hex_run (suc n) (c ∷ t) = let more = hex_run n t in elim (is_hex c) [ true ↦ more | false ↦ none ]

abbrev pub hyphen : Option Text → Option Text
hyphen none = none
hyphen (some []) = none
hyphen (some (c ∷ t)) = elim (c == b'-') [ true ↦ some t | false ↦ none ]

abbrev pub run_of : ℕ → Option Text → Option Text
run_of n none = none
run_of n (some t) = hex_run n t

abbrev pub at_end : Option Text → Bool
at_end none = false
at_end (some []) = true
at_end (some (c ∷ t)) = false

-- `uuidRegex.test(tenantId)`
unfoldable pub is_uuid : Text → Bool
unfolding hex_run
is_uuid t =
    let a = hyphen (hex_run 8 t) in
    let b = hyphen (run_of 4 a) in
    let c = hyphen (run_of 4 b) in let d = hyphen (run_of 4 c) in at_end (run_of 12 d)

abbrev pub is_empty {ℓ} : {A : Type ℓ} → List A → Bool
is_empty [] = true
is_empty (x ∷ xs) = false

-- `JwtStrategy.validate`
unfoldable pub validate : JwtPayload → Exec (ℕ × User)
unfolding Table.lookup
validate payload = do
  row ← gets (λ s. Table.lookup payload.sub s.users)
  user ← or_throw row account_disabled
  throw_if (not user.is_active) account_disabled
  pure (payload.sub, user)

abbrev pub platform_admin_guard : Request → Exec Request
platform_admin_guard r = do
  (id, user) ← or_throw r.user platform_admin_required
  throw_if (not user.is_platform_admin) platform_admin_required
  pure r

module _ (uuid_key : Text → ℕ) where
  -- `TenantGuard.canActivate`
  unfoldable pub tenant_guard : Request → Exec Request
  unfolding is_uuid find_membership
  tenant_guard r = do
    user ← or_throw r.user authentication_required
    throw_if (is_empty r.tenant_header) tenant_header_required
    throw_if (not (is_uuid r.tenant_header)) invalid_tenant_uuid
    row ← gets (find_membership user.0 (uuid_key r.tenant_header))
    found ← or_throw row no_tenant_access
    pure (record r { tenant_id = some (uuid_key r.tenant_header); membership = some found.1 })

  -- The membership that an earlier guard attached, or the one of the database
  abbrev pub membership_of : Option Membership → ℕ → Text → Exec Membership
  membership_of (some m) user header = pure m
  membership_of none user header = do
    row ← gets (find_membership user (uuid_key header))
    found ← or_throw row no_tenant_access
    pure found.1

  unfoldable pub check_roles : List MembershipRole → Request → Exec Request
  unfolding find_membership
  check_roles roles r = do
    user ← or_throw r.user authentication_required
    throw_if (is_empty r.tenant_header) tenant_header_required
    m ← membership_of r.membership user.0 r.tenant_header
    throw_if (not (includes_role m.role roles)) role_required
    pure (record r { membership = some m })

  -- `RolesGuard.canActivate`
  unfoldable pub roles_guard : List MembershipRole → Request → Exec Request
  unfolding check_roles
  roles_guard [] r = pure r
  roles_guard (role ∷ roles) r = check_roles (role ∷ roles) r

  -- `@UseGuards(JwtAuthGuard, TenantGuard, RolesGuard)` on a request with a verified access token
  unfoldable pub guarded : List MembershipRole → JwtPayload → Text → Exec Request
  unfolding validate tenant_guard roles_guard
  guarded roles payload header = do
    user ← validate payload
    r ←
        tenant_guard
          (record { user = some user; tenant_header = header; tenant_id = none; membership = none })
    roles_guard roles r
