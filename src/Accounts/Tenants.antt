-- ===== src/Accounts/Tenants.antt =====
-- src/modules/tenants/tenants.service.ts, and the two routes of tenants.controller.ts that compare
-- the tenant of the path with that of the header. The metadata of a tenant are left out.
use meterplex.Prelude.{ℕ, String, not, Option, none, some, get_or, ◌==◌}
use meterplex.Prelude.Table
use meterplex.Prelude.Service.{gets, throw_if, pure, or_throw, transaction, rethrow, ◌>>=◌, ◌>>◌}
use meterplex.Text.{Text}
use meterplex.Accounts.State.{
  Tenant, TenantStatus, MembershipRole, Exec, Error, unique_violation, slug_exists,
  tenant_id_not_found, tenant_slug_not_found, id_mismatch, record_not_found,
}
use meterplex.Accounts.Rows.{
  create_tenant, member, create_membership, find_membership, find_tenant, update_tenant,
}
use meterplex.Accounts.Passwords.{on_not_found}

pub record CreateTenant : Type 0 where
  pub name : String
  pub slug : Text

pub record UpdateTenant : Type 0 where
  pub name : Option String
  pub status : Option TenantStatus

abbrev pub new_tenant : CreateTenant → Tenant
new_tenant dto = record { name = dto.name; slug = dto.slug; status = TenantStatus.active }

abbrev pub on_slug : Error → Error
on_slug (unique_violation index) = slug_exists
on_slug other = other

unfoldable pub create : CreateTenant → Exec ℕ
unfolding create_tenant
create dto = rethrow on_slug (create_tenant (new_tenant dto))

unfoldable pub create_with_owner : CreateTenant → ℕ → Exec (ℕ × MembershipRole)
unfolding create_tenant create_membership
create_with_owner dto user = rethrow on_slug (
    transaction (do
      id ← create_tenant (new_tenant dto)
      create_membership (member user id MembershipRole.owner)
      pure (id, MembershipRole.owner)))

-- `findById` with a user: the tenant of the membership, with the role
abbrev pub with_role : ℕ → ℕ → Exec (Tenant × Option MembershipRole)
with_role id user = do
  row ← gets (find_membership user id)
  membership ← or_throw row record_not_found
  tenant ← gets (λ s. Table.lookup membership.1.tenant_id s.tenants)
  t ← or_throw tenant record_not_found
  pure (t, some membership.1.role)

abbrev pub without_role : ℕ → Exec (Tenant × Option MembershipRole)
without_role id = do
  tenant ← gets (λ s. Table.lookup id s.tenants)
  t ← or_throw tenant record_not_found
  pure (t, none)

abbrev pub find_for : ℕ → Option ℕ → Exec (Tenant × Option MembershipRole)
find_for id none = without_role id
find_for id (some user) = with_role id user

unfoldable pub find_by_id : ℕ → Option ℕ → Exec (Tenant × Option MembershipRole)
unfolding find_membership Table.lookup
find_by_id id user = rethrow (on_not_found tenant_id_not_found) (find_for id user)

unfoldable pub find_by_slug : Text → Exec (ℕ × Tenant)
unfolding find_tenant
find_by_slug slug =
    rethrow (on_not_found tenant_slug_not_found)
      (do row ← gets (find_tenant slug); or_throw row record_not_found)

abbrev pub updated : UpdateTenant → Tenant → Tenant
updated dto t = record t { name = get_or dto.name t.name; status = get_or dto.status t.status }

unfoldable pub update : ℕ → UpdateTenant → Exec Tenant
unfolding update_tenant
update id dto = rethrow (on_not_found tenant_id_not_found) (update_tenant id (updated dto))

abbrev pub cancelled : Tenant → Tenant
cancelled t = record t { status = TenantStatus.cancelled }

unfoldable pub remove : ℕ → Exec Tenant
unfolding update_tenant
remove id = rethrow (on_not_found tenant_id_not_found) (update_tenant id cancelled)

-- `TenantsController.update` and `remove`
unfoldable pub update_route : ℕ → ℕ → UpdateTenant → Exec Tenant
unfolding update
update_route id tenant dto = do throw_if (not (id == tenant)) id_mismatch; update id dto

unfoldable pub remove_route : ℕ → ℕ → Exec Tenant
unfolding remove
remove_route id tenant = do throw_if (not (id == tenant)) id_mismatch; remove id
