-- ===== src/Accounts/Users.antt =====
-- src/modules/users/users.service.ts, and the update of a user in users.controller.ts.
use meterplex.Prelude.{
  ℕ, String, Bool, true, false, not, ◌&&◌, Option, none, some, List, [], ◌∷◌, get_or, ◌==◌, ◌||◌,
  if◌then◌else◌,
}
use meterplex.Prelude.Table
use meterplex.Prelude.Service.{
  gets, throw_if, throw, pure, or_throw, transaction, rethrow, ◌>>=◌, ◌>>◌,
}
use meterplex.Text.{Text}
use meterplex.Accounts.State.{
  User, Membership, MembershipRole, Exec, Env, Error, unique_violation, email_exists,
  user_not_found, membership_exists, not_tenant_member, user_insufficient_role,
  deactivate_requires_owner, target_not_in_tenant, cannot_deactivate_self, update_requires_tenant,
  record_not_found,
}
use meterplex.Accounts.Rows.{
  create_user, member, create_membership, find_user, find_membership, update_user, is_some,
}
use meterplex.Accounts.Passwords.{hash_password, includes, on_not_found}

pub record CreateUser : Type 0 where
  pub email : Text
  pub password : Text
  pub first_name : String
  pub last_name : String

pub record UpdateUser : Type 0 where
  pub first_name : Option String
  pub last_name : Option String
  pub is_active : Option Bool

unfoldable pub find_by_id : ℕ → Exec User
unfolding Table.lookup
find_by_id id =
    rethrow (on_not_found user_not_found)
      (do row ← gets (λ s. Table.lookup id s.users); or_throw row record_not_found)

abbrev pub updated : UpdateUser → User → User
updated dto u = record u {
  first_name = get_or dto.first_name u.first_name;
  last_name = get_or dto.last_name u.last_name;
  is_active = get_or dto.is_active u.is_active;
}

unfoldable pub update : ℕ → UpdateUser → Exec User
unfolding update_user
update id dto = rethrow (on_not_found user_not_found) (update_user id (updated dto))

abbrev pub same_role : MembershipRole → MembershipRole → Bool
same_role MembershipRole.owner MembershipRole.owner = true
same_role MembershipRole.admin MembershipRole.admin = true
same_role MembershipRole.developer MembershipRole.developer = true
same_role MembershipRole.billing MembershipRole.billing = true
same_role a b = false

abbrev pub includes_role : MembershipRole → List MembershipRole → Bool
includes_role r [] = false
includes_role r (a ∷ roles) = same_role a r || includes_role r roles

-- The checks on the role of the caller's membership
unfoldable pub check_role : UpdateUser → Membership → Exec (Unit {0})
check_role dto caller = do
  throw_if (not (includes_role caller.role (MembershipRole.owner ∷ MembershipRole.admin ∷ [])))
      user_insufficient_role
  throw_if (is_some dto.is_active && not (same_role caller.role MembershipRole.owner))
      deactivate_requires_owner

unfoldable pub assert_caller_can_update_user : ℕ → ℕ → ℕ → UpdateUser → Exec (Unit {0})
unfolding find_membership check_role
assert_caller_can_update_user caller target tenant dto = do
  row ← gets (find_membership caller tenant)
  membership ← or_throw row not_tenant_member
  check_role dto (membership.1)
  other ← gets (find_membership target tenant)
  throw_if (not (is_some other)) target_not_in_tenant

-- `UsersController.update`
abbrev pub update_as : Option ℕ → ℕ → ℕ → UpdateUser → Exec User
update_as none id caller dto = throw update_requires_tenant
update_as (some tenant) id caller dto = do
  assert_caller_can_update_user caller id tenant dto
  update id dto

unfoldable pub update_route : ℕ → ℕ → Option ℕ → UpdateUser → Exec User
unfolding assert_caller_can_update_user update
update_route id caller tenant dto =
    if id == caller
    then (do throw_if (is_some dto.is_active) cannot_deactivate_self; update id dto)
    else update_as tenant id caller dto

module _ (env : Env) where
  abbrev pub new_user : CreateUser → Text → User
  new_user dto hash = record {
    email = env.to_lower_case dto.email;
    password_hash = hash;
    first_name = dto.first_name;
    last_name = dto.last_name;
    is_active = true;
    is_platform_admin = false;
  }

  abbrev pub on_unique : Error → Error
  on_unique (unique_violation index) = email_exists
  on_unique other = other

  unfoldable pub create : CreateUser → Exec ℕ
  unfolding find_user hash_password create_user
  create dto = do
    existing ← gets (find_user (env.to_lower_case dto.email))
    throw_if (is_some existing) email_exists
    hash ← hash_password env dto.password
    rethrow on_unique (create_user (new_user dto hash))

  -- An existing user joins the tenant.
  unfoldable pub add_existing : ℕ → ℕ → MembershipRole → Exec User
  unfolding find_membership create_membership find_by_id
  add_existing user tenant role = do
    existing ← gets (find_membership user tenant)
    throw_if (is_some existing) membership_exists
    create_membership (member user tenant role)
    find_by_id user

  abbrev pub violated : List String → Error
  violated fields = if includes "userId_tenantId" fields then membership_exists else email_exists

  abbrev pub membership_error : Error → Error
  membership_error (unique_violation index) = violated (env.violation_fields index)
  membership_error other = other

  -- A new user is created with the membership in one transaction.
  unfoldable pub add_new : CreateUser → ℕ → MembershipRole → Exec User
  unfolding hash_password create_user create_membership
  add_new dto tenant role = do
    hash ← hash_password env dto.password
    rethrow membership_error (
        transaction (do
          user ← create_user (new_user dto hash)
          create_membership (member user tenant role)
          pure (new_user dto hash)))

  abbrev pub add_user : Option (ℕ × User) → CreateUser → ℕ → MembershipRole → Exec User
  add_user none dto tenant role = add_new dto tenant role
  add_user (some (id, user)) dto tenant role = add_existing id tenant role

  unfoldable pub create_with_membership : CreateUser → ℕ → MembershipRole → Exec User
  unfolding find_user add_existing add_new
  create_with_membership dto tenant role = do
    existing ← gets (find_user (env.to_lower_case dto.email))
    add_user existing dto tenant role
