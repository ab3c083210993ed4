-- ===== src/Accounts/Invariant/Owners.antt =====
-- The owners of the tenants.
use meterplex.Prelude.{
  All, ◌⊎◌, true, ℕ, ◌+◌, ◌==◌, ◌&&◌, Bool, false, Option, none, some, List, length, ◌≡◌, refl,
  arith, Bool-cases, inl, inr, if◌then◌else◌,
}
use mathlib.Core.Option
use meterplex.Prelude.Table
use meterplex.Prelude.Table.{
  Table, lookup-create, lookup-update, lookup_next, length-find_many-create,
}
use meterplex.Prelude.Table.Keyed.{IsKeyed, IsKeyed-create, IsKeyed-grow, IsKeyed-update}
use meterplex.Accounts.State.{Accounts, Tenant, Membership, MembershipRole, Env}
use meterplex.Accounts.Rows.{member, is_some}
use meterplex.Accounts.Users.{same_role}
use meterplex.Accounts.Calls.{Call, spares_owners, run}
use meterplex.Accounts.Calls.Closed.{IsClosed, with_owner, with_membership}
use meterplex.Accounts.Calls.Kept.{run_spares}

abbrev pub is_owner_of : ℕ → Membership → Bool
is_owner_of tenant m = m.tenant_id == tenant && same_role m.role MembershipRole.owner

-- How many owners a tenant has
abbrev pub owners : ℕ → Table Membership → ℕ
owners tenant t = length (Table.find_many (λ _. is_owner_of tenant) t)

-- Each tenant has one owner, and an id that is no tenant's has none.
abbrev pub HasOneOwner : Accounts → Type 0
HasOneOwner s =
    IsKeyed s.next_id s.tenants
    × ((id : ℕ) → owners id s.memberships ≡ (if is_some (Table.lookup id s.tenants) then 1 else 0))

opened : (t : Tenant) (user : ℕ) (s : Accounts) → HasOneOwner s → HasOneOwner (with_owner s t user)
opened t user s (keyed, one) = (
  IsKeyed-grow (s.next_id + 1) (Table.create s.next_id t s.tenants)
      (IsKeyed-create s.next_id t s.tenants keyed),
  λ id.
      let free : Table.lookup s.next_id s.tenants ≡ none =
        lookup_next s.next_id s.tenants keyed.below in
      let m : Membership = member user s.next_id MembershipRole.owner in
      elim (Bool-cases (s.next_id == id)) [
        | inl new ↦ ground (
          arith,
          one id,
          free,
          lookup-create s.next_id id t s.tenants free,
          length-find_many-create (λ _. is_owner_of id) (s.next_id + 1) m s.memberships,
        )
        | inr old ↦ ground (
          arith,
          one id,
          lookup-create s.next_id id t s.tenants free,
          length-find_many-create (λ _. is_owner_of id) (s.next_id + 1) m s.memberships,
        )
      ],
)

joined :
    (m : Membership) (s : Accounts)
    → same_role m.role MembershipRole.owner ≡ false
    → HasOneOwner s
    → HasOneOwner (with_membership s m)
joined m s other (keyed, one) = (
  IsKeyed-grow s.next_id s.tenants keyed,
  λ id. ground (
    arith,
    other,
    one id,
    length-find_many-create (λ _. is_owner_of id) s.next_id m s.memberships,
  ),
)

is_some-map : {A : Type 0} (f : A → A) (o : Option A) → is_some (Option.map f o) ≡ is_some o
is_some-map f none = refl
is_some-map f (some a) = refl

updated :
    (k : ℕ) (f : Tenant → Tenant) (s : Accounts)
    → HasOneOwner s
    → HasOneOwner (record s { tenants = Table.update k f s.tenants })
updated k f s (keyed, one) = (
  IsKeyed-update s.next_id k f s.tenants keyed,
  λ id.
      ground
        (arith, one id, lookup-update k id f s.tenants, is_some-map f (Table.lookup id s.tenants)),
)

not_owner :
    (role : MembershipRole)
    → (false ≡ true) ⊎ (same_role role MembershipRole.owner ≡ false)
    → same_role role MembershipRole.owner ≡ false
not_owner role (inl h) = absurd cc
not_owner role (inr h) = h

HasOneOwner-IsClosed : IsClosed false HasOneOwner
HasOneOwner-IsClosed = record {
  draws = λ d s h. h;
  user = λ u s new (keyed, one). (IsKeyed-grow s.next_id s.tenants keyed, one);
  opening = λ t user s new free h. opened t user s h;
  alone = λ all t s new h. absurd cc;
  joining = λ m s other new there h. joined m s (not_owner m.role other) h;
  token = λ t s (keyed, one). (IsKeyed-grow s.next_id s.tenants keyed, one);
  reset = λ t s (keyed, one). (IsKeyed-grow s.next_id s.tenants keyed, one);
  key = λ k s (keyed, one). (IsKeyed-grow s.next_id s.tenants keyed, one);
  users = λ id f s same h. h;
  tenants = λ id f s same h. updated id f s h;
  keys = λ id f s same dead h. h;
  revoke_many = λ g s h. h;
  revoke = λ id s h. h;
  spend_many = λ g s h. h;
  spend = λ id s h. h;
}

-- Whatever calls are made, in any order and with any arguments, but for those that create a tenant
-- without an owner or add an owner to one, every tenant has exactly one membership whose role is
-- OWNER, and no other tenant id has one, if that held before and the tenants' ids were distinct and
-- below the next id.
pub run-HasOneOwner :
    (env : Env) (calls : List Call) (s : Accounts)
    → All (λ call. spares_owners call ≡ true) calls
    → HasOneOwner s
    → HasOneOwner (run env calls s)
run-HasOneOwner env calls s spare h =
    run_spares HasOneOwner HasOneOwner-IsClosed env calls s spare h
