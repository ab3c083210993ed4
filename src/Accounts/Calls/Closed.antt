-- ===== src/Accounts/Calls/Closed.antt =====
-- The writes of the account services: what each of them keeps is kept by every query that makes it.
use meterplex.Prelude.{
  ℕ, ◌+◌, Bool, true, false, ◌&&◌, ◌≡◌, refl, ◌⊎◌, Bool-cases, Option-cases, inl, inr,
}
use meterplex.Prelude.Table
use meterplex.Prelude.Table.{Table}
use meterplex.Prelude.Service.{Keeps, KeepsOk, Good-step, Good-stop, ok, err, pure, ◌>>=◌}
use meterplex.Accounts.State.{
  Accounts, User, Tenant, Membership, MembershipRole, Exec, Error, unique_violation,
  foreign_key_violation, tenant_slug, membership_pair, RefreshToken, PasswordResetToken, ApiKey,
}
use meterplex.Accounts.Rows.{
  member, find_user, find_tenant, find_membership, find_token, find_reset, find_key, is_some, draw,
  create_user, create_tenant, create_membership, create_token, create_reset, create_key,
  update_user, update_tenant, update_key,
}
use meterplex.Accounts.Users.{same_role}
use meterplex.Accounts.Tokens.{revoke_token, revoke_row}
use meterplex.Accounts.Passwords.{use_reset, mark_used}
use meterplex.Accounts.ApiKeys.{is_active}

-- The store after one creation
module _ (s : Accounts) where
  abbrev pub with_user : User → Accounts
  with_user u = record s { users = Table.create s.next_id u s.users; next_id = s.next_id + 1 }

  abbrev pub with_tenant : Tenant → Accounts
  with_tenant t = record s { tenants = Table.create s.next_id t s.tenants; next_id = s.next_id + 1 }

  abbrev pub with_membership : Membership → Accounts
  with_membership m = record s {
    memberships = Table.create s.next_id m s.memberships;
    next_id = s.next_id + 1;
  }

  abbrev pub with_token : RefreshToken → Accounts
  with_token t = record s {
    refresh_tokens = Table.create s.next_id t s.refresh_tokens;
    next_id = s.next_id + 1;
  }

  abbrev pub with_reset : PasswordResetToken → Accounts
  with_reset t = record s {
    reset_tokens = Table.create s.next_id t s.reset_tokens;
    next_id = s.next_id + 1;
  }

  abbrev pub with_key : ApiKey → Accounts
  with_key k = record s { api_keys = Table.create s.next_id k s.api_keys; next_id = s.next_id + 1 }

-- The store after a tenant is created with its owner
abbrev pub with_owner : Accounts → Tenant → ℕ → Accounts
with_owner s t user = with_membership (with_tenant s t) (member user s.next_id MembershipRole.owner)

abbrev pub known : ℕ → ℕ → Accounts → Bool
known user tenant s = is_some (Table.lookup user s.users) && is_some (Table.lookup tenant s.tenants)

-- `P` is kept by each write of the services, or, unless `every`, by those that make no tenant alone
-- and no owner but that of a new tenant.
pub record IsClosed (every : Bool) (P : Accounts → Type 0) : Type 0 where
  pub draws : (d : ℕ) (s : Accounts) → P s → P (record s { draws = d })
  pub user :
      (u : User) (s : Accounts) → is_some (find_user u.email s) ≡ false → P s → P (with_user s u)
  pub opening :
      (t : Tenant) (user : ℕ) (s : Accounts)
      → is_some (find_tenant t.slug s) ≡ false
      → is_some (find_membership user s.next_id (with_tenant s t)) ≡ false
      → P s
      → P (with_owner s t user)
  pub alone :
      every ≡ true
      → (t : Tenant) (s : Accounts) → is_some (find_tenant t.slug s) ≡ false
      → P s
      → P (with_tenant s t)
  pub joining :
      (m : Membership) (s : Accounts)
      → (every ≡ true) ⊎ (same_role m.role MembershipRole.owner ≡ false)
      → is_some (find_membership m.user_id m.tenant_id s) ≡ false
      → known m.user_id m.tenant_id s ≡ true
      → P s
      → P (with_membership s m)
  pub token : (t : RefreshToken) (s : Accounts) → P s → P (with_token s t)
  pub reset : (t : PasswordResetToken) (s : Accounts) → P s → P (with_reset s t)
  pub key : (k : ApiKey) (s : Accounts) → P s → P (with_key s k)
  pub users :
      (id : ℕ) (f : User → User) (s : Accounts)
      → ((u : User) → (f u).email ≡ u.email)
      → P s
      → P (record s { users = Table.update id f s.users })
  pub tenants :
      (id : ℕ) (f : Tenant → Tenant) (s : Accounts)
      → ((t : Tenant) → (f t).slug ≡ t.slug)
      → P s
      → P (record s { tenants = Table.update id f s.tenants })
  pub keys :
      (id : ℕ) (f : ApiKey → ApiKey) (s : Accounts)
      → ((k : ApiKey) → (f k).key_hash ≡ k.key_hash)
      → ((k : ApiKey) → is_active k.status ≡ false → is_active (f k).status ≡ false)
      → P s
      → P (record s { api_keys = Table.update id f s.api_keys })
  pub revoke_many :
      (g : RefreshToken → Bool) (s : Accounts)
      → P s
      → P (record s { refresh_tokens = Table.update_many g revoke_token s.refresh_tokens })
  pub revoke : (id : ℕ) (s : Accounts) → P s → P (revoke_row id s)
  pub spend_many :
      (g : PasswordResetToken → Bool) (s : Accounts)
      → P s
      → P (record s { reset_tokens = Table.update_many g use_reset s.reset_tokens })
  pub spend : (id : ℕ) (s : Accounts) → P s → P (mark_used id s)

-- What a creation comes to.
tenant_outcome :
    (t : Tenant) (s : Accounts)
    → ((is_some (find_tenant t.slug s) ≡ false)
        × (create_tenant t s ≡ (ok s.next_id, with_tenant s t)))
      ⊎ (create_tenant t s ≡ (err (unique_violation tenant_slug), s))
unfolding create_tenant
tenant_outcome t s = elim (Bool-cases (is_some (find_tenant t.slug s))) [
  | inl seen ↦ inr (rw seen refl)
  | inr new ↦ inl (new, rw new refl)
]

membership_outcome :
    (m : Membership) (s : Accounts)
    → ((is_some (find_membership m.user_id m.tenant_id s) ≡ false)
        × (known m.user_id m.tenant_id s ≡ true)
        × (create_membership m s ≡ (ok s.next_id, with_membership s m)))
      ⊎ ((e : Error) × (create_membership m s ≡ (err e, s)))
unfolding create_membership
membership_outcome m s = elim (Bool-cases (is_some (find_membership m.user_id m.tenant_id s))) [
  | inl seen ↦ inr (unique_violation membership_pair, rw seen refl)
  | inr new ↦ elim (Bool-cases (known m.user_id m.tenant_id s)) [
    | inl there ↦ inl (new, there, rw (new, there) refl)
    | inr unknown ↦ inr (foreign_key_violation, rw (new, unknown) refl)
  ]
]

-- Each query keeps it.
module _ {every : Bool} (P : Accounts → Type 0) (c : IsClosed every P) where
  pub draw-Keeps : Keeps P draw
  unfolding draw
  draw-Keeps = record { at = λ s h. c.draws (s.draws + 1) s h }

  pub create_user-Keeps : (u : User) → Keeps P (create_user u)
  unfolding create_user
  create_user-Keeps u = record {
    at = λ s h. elim (Bool-cases (is_some (find_user u.email s))) [
      | inl seen ↦ rw seen h
      | inr new ↦ rw new (c.user u s new h)
    ];
  }

  -- A tenant is created together with its owner.
  pub opening-KeepsOk :
      {A : Type 0} (t : Tenant) (user : ℕ) (k : ℕ → A)
      → KeepsOk P (
          create_tenant t >>= λ id.
          create_membership (member user id MembershipRole.owner) >>= λ _. pure (k id))
  opening-KeepsOk t user k =
      let owner : ℕ → Membership = λ id. member user id MembershipRole.owner in
      let rest : ℕ → Exec ℕ = λ id. create_membership (owner id) in
      record {
        at = λ s h. elim (tenant_outcome t s) [
          | inl (new, opened) ↦
              Good-step P (create_tenant t) (λ id. rest id >>= λ _. pure (k id)) opened
                (elim (membership_outcome (owner s.next_id) (with_tenant s t)) [
                  | inl (free, there, joined) ↦
                      Good-step P (rest s.next_id) (λ _. pure (k s.next_id)) joined
                        (c.opening t user s new free h)
                  | inr (e, failed) ↦ Good-stop P (rest s.next_id) (λ _. pure (k s.next_id)) failed
                ])
          | inr failed ↦ Good-stop P (create_tenant t) (λ id. rest id >>= λ _. pure (k id)) failed
        ];
      }

  pub create_tenant-Keeps : every ≡ true → (t : Tenant) → Keeps P (create_tenant t)
  create_tenant-Keeps all t = record {
    at = λ s h. elim (tenant_outcome t s) [
      | inl (new, opened) ↦ rw opened (c.alone all t s new h)
      | inr failed ↦ rw failed h
    ];
  }

  pub joining-Keeps :
      (m : Membership)
      → (every ≡ true) ⊎ (same_role m.role MembershipRole.owner ≡ false)
      → Keeps P (create_membership m)
  joining-Keeps m other = record {
    at = λ s h. elim (membership_outcome m s) [
      | inl (new, there, joined) ↦ rw joined (c.joining m s other new there h)
      | inr (e, failed) ↦ rw failed h
    ];
  }

  pub create_token-Keeps : (t : RefreshToken) → Keeps P (create_token t)
  unfolding create_token
  create_token-Keeps t = record {
    at = λ s h. elim (Bool-cases (is_some (find_token t.token_hash s))) [
      | inl seen ↦ rw seen h
      | inr new ↦ rw new (elim (Bool-cases (is_some (Table.lookup t.user_id s.users))) [
        | inl known ↦ rw known (c.token t s h)
        | inr unknown ↦ rw unknown h
      ])
    ];
  }

  pub create_reset-Keeps : (t : PasswordResetToken) → Keeps P (create_reset t)
  unfolding create_reset
  create_reset-Keeps t = record {
    at = λ s h. elim (Bool-cases (is_some (find_reset t.token_hash s))) [
      | inl seen ↦ rw seen h
      | inr new ↦ rw new (elim (Bool-cases (is_some (Table.lookup t.user_id s.users))) [
        | inl known ↦ rw known (c.reset t s h)
        | inr unknown ↦ rw unknown h
      ])
    ];
  }

  pub create_key-Keeps : (k : ApiKey) → Keeps P (create_key k)
  unfolding create_key
  create_key-Keeps k = record {
    at = λ s h. elim (Bool-cases (is_some (find_key k.key_hash s))) [
      | inl seen ↦ rw seen h
      | inr new ↦
          rw new
            (elim (Bool-cases (
              is_some (Table.lookup k.created_by_user_id s.users)
              && is_some (Table.lookup k.tenant_id s.tenants))) [
                | inl known ↦ rw known (c.key k s h)
                | inr unknown ↦ rw unknown h
              ])
    ];
  }

  pub update_user-Keeps :
      (id : ℕ) (f : User → User) → ((u : User) → (f u).email ≡ u.email) → Keeps P (update_user id f)
  unfolding update_user
  update_user-Keeps id f same = record {
    at = λ s h. elim (Option-cases (Table.lookup id s.users)) [
      | inl absent ↦ rw absent h
      | inr (u, found) ↦ rw found (c.users id f s same h)
    ];
  }

  pub update_tenant-Keeps :
      (id : ℕ) (f : Tenant → Tenant)
      → ((t : Tenant) → (f t).slug ≡ t.slug)
      → Keeps P (update_tenant id f)
  unfolding update_tenant
  update_tenant-Keeps id f same = record {
    at = λ s h. elim (Option-cases (Table.lookup id s.tenants)) [
      | inl absent ↦ rw absent h
      | inr (t, found) ↦ rw found (c.tenants id f s same h)
    ];
  }

  pub update_key-Keeps :
      (id : ℕ) (f : ApiKey → ApiKey)
      → ((k : ApiKey) → (f k).key_hash ≡ k.key_hash)
      → ((k : ApiKey) → is_active k.status ≡ false → is_active (f k).status ≡ false)
      → Keeps P (update_key id f)
  unfolding update_key
  update_key-Keeps id f same dead = record {
    at = λ s h. elim (Option-cases (Table.lookup id s.api_keys)) [
      | inl absent ↦ rw absent h
      | inr (k, found) ↦ rw found (c.keys id f s same dead h)
    ];
  }
