-- ===== src/Accounts/Calls/Kept/Users.antt =====
-- The calls about users and tenants keep what the writes keep.
use meterplex.Prelude.{
  true, ◌⊎◌, ℕ, Bool, false, ◌≡◌, not, Option, none, some, [], ◌∷◌, refl, Bool-cases, inl, inr,
  ◌==◌, ◌&&◌,
}
use meterplex.Prelude.Table
use meterplex.Prelude.Service.{
  Keeps, Keeps-bind, Keeps-gets, Keeps-or_throw, Keeps-pure, Keeps-throw, Keeps-throw_if,
  Keeps-transaction, Keeps-rethrow, transaction-KeepsOk, or_throw, gets, throw_if,
}
use meterplex.Accounts.State.{
  Accounts, User, Membership, MembershipRole, Env, record_not_found, user_not_found, email_exists,
  membership_exists, not_tenant_member, user_insufficient_role, deactivate_requires_owner,
  target_not_in_tenant, cannot_deactivate_self, update_requires_tenant, id_mismatch,
  tenant_id_not_found,
}
use meterplex.Accounts.Rows.{
  member, find_user, find_membership, is_some, create_user, create_tenant, create_membership,
  update_user, update_tenant,
}
use meterplex.Accounts.Passwords.{hash_password, on_not_found}
use meterplex.Accounts.Users
use meterplex.Accounts.Users.{
  CreateUser, UpdateUser, find_by_id, add_existing, add_new, add_user, create_with_membership,
  check_role, includes_role, same_role, assert_caller_can_update_user, update_as, update_route,
  new_user, membership_error,
}
use meterplex.Accounts.Tenants
use meterplex.Accounts.Tenants.{
  CreateTenant, UpdateTenant, new_tenant, on_slug, create_with_owner, remove, remove_route,
  cancelled,
}
use meterplex.Accounts.Calls.Closed.{
  IsClosed, create_user-Keeps, create_tenant-Keeps, opening-KeepsOk, joining-Keeps,
  update_user-Keeps, update_tenant-Keeps,
}
use meterplex.Accounts.Calls.Kept.Passwords.{hash_password-Keeps}

module _ {every : Bool} (P : Accounts → Type 0) (c : IsClosed every P) where
  find_by_id-Keeps : (id : ℕ) → Keeps P (find_by_id id)
  unfolding find_by_id
  find_by_id-Keeps id = Keeps-rethrow P (on_not_found user_not_found) _ (
      Keeps-bind P (gets (λ s. Table.lookup id s.users)) _
        (Keeps-gets P (λ s. Table.lookup id s.users))
        (λ row. Keeps-or_throw P row record_not_found))

  update-Keeps : (id : ℕ) (dto : UpdateUser) → Keeps P (Users.update id dto)
  unfolding Users.update
  update-Keeps id dto =
      Keeps-rethrow P (on_not_found user_not_found) (update_user id (Users.updated dto))
        (update_user-Keeps P c id (Users.updated dto) (λ u. refl))

  check_role-Keeps : (dto : UpdateUser) (m : Membership) → Keeps P (check_role dto m)
  unfolding check_role
  check_role-Keeps dto m =
      let allowed : Bool =
        includes_role m.role (MembershipRole.owner ∷ MembershipRole.admin ∷ []) in
      Keeps-bind P (throw_if (not allowed) user_insufficient_role) _
        (Keeps-throw_if P (not allowed) user_insufficient_role)
        (λ u.
          Keeps-throw_if P (is_some dto.is_active && not (same_role m.role MembershipRole.owner))
            deactivate_requires_owner)

  assert-Keeps :
      (caller target tenant : ℕ) (dto : UpdateUser)
      → Keeps P (assert_caller_can_update_user caller target tenant dto)
  unfolding assert_caller_can_update_user
  assert-Keeps caller target tenant dto =
      Keeps-bind P (gets (find_membership caller tenant)) _
        (Keeps-gets P (find_membership caller tenant))
        (λ row.
          Keeps-bind P (or_throw row not_tenant_member) _ (Keeps-or_throw P row not_tenant_member)
            (λ m. Keeps-bind P (check_role dto m.1) _ (check_role-Keeps dto m.1) (λ u.
              Keeps-bind P (gets (find_membership target tenant)) _
                (Keeps-gets P (find_membership target tenant))
                (λ other. Keeps-throw_if P (not (is_some other)) target_not_in_tenant))))

  update_as-Keeps :
      (tenant : Option ℕ) (id caller : ℕ) (dto : UpdateUser)
      → Keeps P (update_as tenant id caller dto)
  update_as-Keeps none id caller dto = Keeps-throw P update_requires_tenant
  update_as-Keeps (some tenant) id caller dto =
      Keeps-bind P (assert_caller_can_update_user caller id tenant dto) _
        (assert-Keeps caller id tenant dto) (λ u. update-Keeps id dto)

  pub update_route-Keeps :
      (id caller : ℕ) (tenant : Option ℕ) (dto : UpdateUser)
      → Keeps P (update_route id caller tenant dto)
  unfolding update_route
  update_route-Keeps id caller tenant dto = elim (Bool-cases (id == caller)) [
    | inl self ↦ rw self (
        Keeps-bind P (throw_if (is_some dto.is_active) cannot_deactivate_self) _
          (Keeps-throw_if P (is_some dto.is_active) cannot_deactivate_self)
          (λ u. update-Keeps id dto))
    | inr other ↦ rw other (update_as-Keeps tenant id caller dto)
  ]

  pub tenant_created-Keeps : every ≡ true → (dto : CreateTenant) → Keeps P (Tenants.create dto)
  unfolding Tenants.create
  tenant_created-Keeps all dto =
      Keeps-rethrow P on_slug (create_tenant (new_tenant dto))
        (create_tenant-Keeps P c all (new_tenant dto))

  pub user_created-Keeps : (env : Env) (dto : CreateUser) → Keeps P (Users.create env dto)
  unfolding Users.create
  user_created-Keeps env dto =
      Keeps-bind P (gets (find_user (env.to_lower_case dto.email))) _
        (Keeps-gets P (find_user (env.to_lower_case dto.email)))
        (λ existing.
          Keeps-bind P (throw_if (is_some existing) email_exists) _
            (Keeps-throw_if P (is_some existing) email_exists)
            (λ u.
              Keeps-bind P (hash_password env dto.password) _
                (hash_password-Keeps P c env dto.password)
                (λ hash.
                  Keeps-rethrow P (Users.on_unique env) (create_user (new_user env dto hash))
                    (create_user-Keeps P c (new_user env dto hash)))))

  pub create_with_owner-Keeps :
      (dto : CreateTenant) (user : ℕ) → Keeps P (create_with_owner dto user)
  unfolding create_with_owner
  create_with_owner-Keeps dto user = Keeps-rethrow P on_slug _ (
      transaction-KeepsOk P _
        (opening-KeepsOk P c (new_tenant dto) user (λ id. (id, MembershipRole.owner))))

  pub tenant_route-Keeps :
      (id tenant : ℕ) (dto : UpdateTenant) → Keeps P (Tenants.update_route id tenant dto)
  unfolding Tenants.update_route Tenants.update
  tenant_route-Keeps id tenant dto =
      Keeps-bind P (throw_if (not (id == tenant)) id_mismatch) _
        (Keeps-throw_if P (not (id == tenant)) id_mismatch)
        (λ u.
          Keeps-rethrow P (on_not_found tenant_id_not_found)
            (update_tenant id (Tenants.updated dto))
            (update_tenant-Keeps P c id (Tenants.updated dto) (λ t. refl)))

  pub remove_route-Keeps : (id tenant : ℕ) → Keeps P (remove_route id tenant)
  unfolding remove_route remove
  remove_route-Keeps id tenant =
      Keeps-bind P (throw_if (not (id == tenant)) id_mismatch) _
        (Keeps-throw_if P (not (id == tenant)) id_mismatch)
        (λ u.
          Keeps-rethrow P (on_not_found tenant_id_not_found) (update_tenant id cancelled)
            (update_tenant-Keeps P c id cancelled (λ t. refl)))

  module _ (env : Env) (role : MembershipRole)
      (other : (every ≡ true) ⊎ (same_role role MembershipRole.owner ≡ false)) where
    add_existing-Keeps : (user tenant : ℕ) → Keeps P (add_existing env user tenant role)
    unfolding add_existing
    add_existing-Keeps user tenant =
        Keeps-bind P (gets (find_membership user tenant)) _
          (Keeps-gets P (find_membership user tenant))
          (λ existing.
            Keeps-bind P (throw_if (is_some existing) membership_exists) _
              (Keeps-throw_if P (is_some existing) membership_exists)
              (λ u.
                Keeps-bind P (create_membership (member user tenant role)) _
                  (joining-Keeps P c (member user tenant role) other)
                  (λ id. find_by_id-Keeps user)))

    add_new-Keeps : (dto : CreateUser) (tenant : ℕ) → Keeps P (add_new env dto tenant role)
    unfolding add_new
    add_new-Keeps dto tenant =
        Keeps-bind P (hash_password env dto.password) _ (hash_password-Keeps P c env dto.password)
          (λ hash. Keeps-rethrow P (membership_error env) _ (
            Keeps-transaction P _ (
              Keeps-bind P (create_user (new_user env dto hash)) _
                (create_user-Keeps P c (new_user env dto hash))
                (λ user.
                  Keeps-bind P (create_membership (member user tenant role)) _
                    (joining-Keeps P c (member user tenant role) other)
                    (λ id. Keeps-pure P (new_user env dto hash))))))

    add_user-Keeps :
        (row : Option (ℕ × User)) (dto : CreateUser) (tenant : ℕ)
        → Keeps P (add_user env row dto tenant role)
    add_user-Keeps none dto tenant = add_new-Keeps dto tenant
    add_user-Keeps (some (id, user)) dto tenant = add_existing-Keeps id tenant

    pub create_with_membership-Keeps :
        (dto : CreateUser) (tenant : ℕ) → Keeps P (create_with_membership env dto tenant role)
    unfolding create_with_membership
    create_with_membership-Keeps dto tenant =
        Keeps-bind P (gets (find_user (env.to_lower_case dto.email))) _
          (Keeps-gets P (find_user (env.to_lower_case dto.email)))
          (λ row. add_user-Keeps row dto tenant)
