-- ===== src/Accounts/Invariant/Unique.antt =====
-- The unique indexes on e-mail addresses, slugs and memberships.
use meterplex.Prelude.{ℕ, ◌+◌, Bool, true, List, ◌≡◌, ap, arith}
use meterplex.Prelude.Table.Unique.{IsUnique, IsUnique-create, IsUnique-update}
use meterplex.Text.{text_eq, text_eq_sound}
use meterplex.Accounts.State.{Accounts, Membership, MembershipRole, Env}
use meterplex.Accounts.Rows.{
  member, has_email, has_slug, is_pair, find_user, find_tenant, find_membership, is_some-none,
}
use meterplex.Accounts.Calls.{Call, run}
use meterplex.Accounts.Calls.Closed.{IsClosed, with_tenant}
use meterplex.Accounts.Calls.Kept.{run_keeps}

abbrev pub is_member : ℕ × ℕ → Membership → Bool
is_member (user, tenant) m = is_pair user tenant m

-- No two users share an address, no two tenants a slug, and nobody is twice in a tenant.
abbrev pub HasUniqueRows : Accounts → Type 0
HasUniqueRows s =
    IsUnique has_email s.users × IsUnique has_slug s.tenants × IsUnique is_member s.memberships

pair_lem : (i : ℕ × ℕ) (m : Membership) → is_member i m ≡ true → (m.user_id, m.tenant_id) ≡ i
pair_lem (user, tenant) m h = ground arith

HasUniqueRows-IsClosed : IsClosed true HasUniqueRows
unfolding find_user find_tenant find_membership
HasUniqueRows-IsClosed = record {
  draws = λ d s h. h;
  user = λ u s new (e, g, m). (
    IsUnique-create has_email (λ v. v.email) s.next_id u s.users (λ i h. text_eq_sound u.email i h)
        (is_some-none (find_user u.email s) new) e,
    g,
    m,
  );
  opening = λ t user s new free (e, g, m). (
    e,
    IsUnique-create has_slug (λ v. v.slug) s.next_id t s.tenants (λ i h. text_eq_sound t.slug i h)
        (is_some-none (find_tenant t.slug s) new) g,
    IsUnique-create is_member (λ v. (v.user_id, v.tenant_id)) (s.next_id + 1)
        (member user s.next_id MembershipRole.owner) s.memberships
        (λ i h. pair_lem i (member user s.next_id MembershipRole.owner) h)
        (is_some-none (find_membership user s.next_id (with_tenant s t)) free) m,
  );
  alone = λ all t s new (e, g, m). (
    e,
    IsUnique-create has_slug (λ v. v.slug) s.next_id t s.tenants (λ i h. text_eq_sound t.slug i h)
        (is_some-none (find_tenant t.slug s) new) g,
    m,
  );
  joining = λ n s other new there (e, g, m). (
    e,
    g,
    IsUnique-create is_member (λ v. (v.user_id, v.tenant_id)) s.next_id n s.memberships
        (λ i h. pair_lem i n h) (is_some-none (find_membership n.user_id n.tenant_id s) new) m,
  );
  token = λ t s h. h;
  reset = λ t s h. h;
  key = λ k s h. h;
  users = λ id f s same (e, g, m).
      (IsUnique-update has_email id f s.users (λ i v. ap (λ x. text_eq x i) (same v)) e, g, m);
  tenants = λ id f s same (e, g, m).
      (e, IsUnique-update has_slug id f s.tenants (λ i v. ap (λ x. text_eq x i) (same v)) g, m);
  keys = λ id f s same dead h. h;
  revoke_many = λ g s h. h;
  revoke = λ id s h. h;
  spend_many = λ g s h. h;
  spend = λ id s h. h;
}

-- Whatever calls are made, in any order and with any arguments, no two users share an e-mail
-- address, no two tenants a slug, and no user is twice a member of a tenant, if that held before.
pub run-HasUniqueRows :
    (env : Env) (calls : List Call) (s : Accounts)
    → HasUniqueRows s
    → HasUniqueRows (run env calls s)
run-HasUniqueRows env calls s h = run_keeps HasUniqueRows HasUniqueRows-IsClosed env calls s h
