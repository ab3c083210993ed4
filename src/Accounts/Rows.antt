-- ===== src/Accounts/Rows.antt =====
-- The queries of the account services: look-ups by a unique index, and creations with the unique
-- and the foreign keys of their table.
use meterplex.Prelude.{
  ℕ, ◌+◌, String, Bool, true, false, not, ◌&&◌, ◌||◌, Option, none, some, ◌==◌, ◌≡◌, refl,
  if◌then◌else◌,
}
use meterplex.Prelude.Table
use meterplex.Prelude.Table.{Table}
use meterplex.Prelude.Service.{gets, throw_if, modify, pure, or_throw, ◌>>=◌, ◌>>◌}
use meterplex.Text.{Text, text_eq}
use meterplex.Accounts.State.{
  Accounts, User, Tenant, Membership, MembershipRole, RefreshToken, PasswordResetToken, ApiKey,
  Exec, record_not_found, unique_violation, foreign_key_violation, user_email, tenant_slug,
  membership_pair, key_hash, token_hash,
}
pub mod Done

-- The conditions of the look-ups
abbrev pub has_email : Text → User → Bool
has_email email u = text_eq u.email email

abbrev pub has_slug : Text → Tenant → Bool
has_slug slug t = text_eq t.slug slug

abbrev pub is_pair : ℕ → ℕ → Membership → Bool
is_pair user tenant m = m.user_id == user && m.tenant_id == tenant

abbrev pub has_token : Text → RefreshToken → Bool
has_token hash t = text_eq t.token_hash hash

abbrev pub has_reset : Text → PasswordResetToken → Bool
has_reset hash t = text_eq t.token_hash hash

abbrev pub has_key : Text → ApiKey → Bool
has_key hash k = text_eq k.key_hash hash

-- `findUnique` on each index
unfoldable pub find_user : Text → Accounts → Option (ℕ × User)
find_user email s = Table.find_first (λ _. has_email email) s.users

unfoldable pub find_tenant : Text → Accounts → Option (ℕ × Tenant)
find_tenant slug s = Table.find_first (λ _. has_slug slug) s.tenants

unfoldable pub find_membership : ℕ → ℕ → Accounts → Option (ℕ × Membership)
find_membership user tenant s = Table.find_first (λ _. is_pair user tenant) s.memberships

unfoldable pub find_token : Text → Accounts → Option (ℕ × RefreshToken)
find_token hash s = Table.find_first (λ _. has_token hash) s.refresh_tokens

unfoldable pub find_reset : Text → Accounts → Option (ℕ × PasswordResetToken)
find_reset hash s = Table.find_first (λ _. has_reset hash) s.reset_tokens

unfoldable pub find_key : Text → Accounts → Option (ℕ × ApiKey)
find_key hash s = Table.find_first (λ _. has_key hash) s.api_keys

abbrev pub is_some {ℓ} : {A : Type ℓ} → Option A → Bool
is_some none = false
is_some (some a) = true

pub is_some-none {ℓ} : {A : Type ℓ} (o : Option A) → is_some o ≡ false → o ≡ none
is_some-none none h = refl
is_some-none (some a) h = cc

abbrev has_user : ℕ → Accounts → Bool
has_user id s = is_some (Table.lookup id s.users)

abbrev has_tenant : ℕ → Accounts → Bool
has_tenant id s = is_some (Table.lookup id s.tenants)

abbrev pub member : ℕ → ℕ → MembershipRole → Membership
member user tenant role = record { user_id = user; tenant_id = tenant; role = role }

-- One call of the random generator
unfoldable pub draw : Exec ℕ
draw = do d ← gets (λ s. s.draws); modify (λ s. record s { draws = d + 1 }); pure d

unfoldable pub create_user : User → Exec ℕ
unfolding find_user
create_user u = do
  seen ← gets (find_user u.email)
  throw_if (is_some seen) (unique_violation user_email)
  id ← gets (λ s. s.next_id)
  modify (λ s. record s { users = Table.create id u s.users; next_id = id + 1 })
  pure id

unfoldable pub create_tenant : Tenant → Exec ℕ
unfolding find_tenant
create_tenant t = do
  seen ← gets (find_tenant t.slug)
  throw_if (is_some seen) (unique_violation tenant_slug)
  id ← gets (λ s. s.next_id)
  modify (λ s. record s { tenants = Table.create id t s.tenants; next_id = id + 1 })
  pure id

unfoldable pub create_membership : Membership → Exec ℕ
unfolding find_membership Table.lookup
create_membership m = do
  seen ← gets (find_membership m.user_id m.tenant_id)
  throw_if (is_some seen) (unique_violation membership_pair)
  known ← gets (λ s. has_user m.user_id s && has_tenant m.tenant_id s)
  throw_if (not known) foreign_key_violation
  id ← gets (λ s. s.next_id)
  modify (λ s. record s { memberships = Table.create id m s.memberships; next_id = id + 1 })
  pure id

unfoldable pub create_token : RefreshToken → Exec ℕ
unfolding find_token Table.lookup
create_token t = do
  seen ← gets (find_token t.token_hash)
  throw_if (is_some seen) (unique_violation token_hash)
  known ← gets (has_user t.user_id)
  throw_if (not known) foreign_key_violation
  id ← gets (λ s. s.next_id)
  modify (λ s. record s { refresh_tokens = Table.create id t s.refresh_tokens; next_id = id + 1 })
  pure id

unfoldable pub create_reset : PasswordResetToken → Exec ℕ
unfolding find_reset Table.lookup
create_reset t = do
  seen ← gets (find_reset t.token_hash)
  throw_if (is_some seen) (unique_violation token_hash)
  known ← gets (has_user t.user_id)
  throw_if (not known) foreign_key_violation
  id ← gets (λ s. s.next_id)
  modify (λ s. record s { reset_tokens = Table.create id t s.reset_tokens; next_id = id + 1 })
  pure id

unfoldable pub create_key : ApiKey → Exec ℕ
unfolding find_key Table.lookup
create_key k = do
  seen ← gets (find_key k.key_hash)
  throw_if (is_some seen) (unique_violation key_hash)
  known ← gets (λ s. has_user k.created_by_user_id s && has_tenant k.tenant_id s)
  throw_if (not known) foreign_key_violation
  id ← gets (λ s. s.next_id)
  modify (λ s. record s { api_keys = Table.create id k s.api_keys; next_id = id + 1 })
  pure id

-- `update({ where: { id } })`, which throws on a missing row
unfoldable pub update_user : ℕ → (User → User) → Exec User
unfolding Table.lookup Table.update
update_user id f = do
  row ← gets (λ s. Table.lookup id s.users)
  u ← or_throw row record_not_found
  modify (λ s. record s { users = Table.update id f s.users })
  pure (f u)

unfoldable pub update_tenant : ℕ → (Tenant → Tenant) → Exec Tenant
unfolding Table.lookup Table.update
update_tenant id f = do
  row ← gets (λ s. Table.lookup id s.tenants)
  t ← or_throw row record_not_found
  modify (λ s. record s { tenants = Table.update id f s.tenants })
  pure (f t)

unfoldable pub update_key : ℕ → (ApiKey → ApiKey) → Exec ApiKey
unfolding Table.lookup Table.update
update_key id f = do
  row ← gets (λ s. Table.lookup id s.api_keys)
  k ← or_throw row record_not_found
  modify (λ s. record s { api_keys = Table.update id f s.api_keys })
  pure (f k)
