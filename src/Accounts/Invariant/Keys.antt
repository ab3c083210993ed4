-- ===== src/Accounts/Invariant/Keys.antt =====
-- The ids of the account tables.
use meterplex.Prelude.{true, ℕ, ◌+◌, List}
use meterplex.Prelude.Table
use meterplex.Prelude.Table.{Table}
use meterplex.Prelude.Table.Keyed.{
  IsKeyed, IsKeyed-create, IsKeyed-grow, IsKeyed-update, IsKeyed-update_many,
}
use meterplex.Accounts.State.{Accounts, MembershipRole, Env}
use meterplex.Accounts.Rows.{member}
use meterplex.Accounts.Tokens.{revoke_token}
use meterplex.Accounts.Passwords.{use_reset}
use meterplex.Accounts.Calls.{Call, run}
use meterplex.Accounts.Calls.Closed.{IsClosed}
use meterplex.Accounts.Calls.Kept.{run_keeps}

-- Each id is given out once.
abbrev pub HasKeys : Accounts → Type 0
HasKeys s =
    IsKeyed s.next_id s.users
    × IsKeyed s.next_id s.tenants
    × IsKeyed s.next_id s.memberships
    × IsKeyed s.next_id s.api_keys
    × IsKeyed s.next_id s.refresh_tokens
    × IsKeyed s.next_id s.reset_tokens

grow_twice : {V : Type 0} (n : ℕ) (t : Table V) → IsKeyed n t → IsKeyed (n + 1 + 1) t
grow_twice n t h = IsKeyed-grow (n + 1) t (IsKeyed-grow n t h)

HasKeys-IsClosed : IsClosed true HasKeys
HasKeys-IsClosed = record {
  draws = λ d s (u, t, m, k, r, x). (u, t, m, k, r, x);
  user = λ v s new (u, t, m, k, r, x). (
    IsKeyed-create s.next_id v s.users u,
    IsKeyed-grow s.next_id s.tenants t,
    IsKeyed-grow s.next_id s.memberships m,
    IsKeyed-grow s.next_id s.api_keys k,
    IsKeyed-grow s.next_id s.refresh_tokens r,
    IsKeyed-grow s.next_id s.reset_tokens x,
  );
  opening = λ v user s new free (u, t, m, k, r, x). (
    grow_twice s.next_id s.users u,
    IsKeyed-grow (s.next_id + 1) (Table.create s.next_id v s.tenants)
        (IsKeyed-create s.next_id v s.tenants t),
    IsKeyed-create (s.next_id + 1) (member user s.next_id MembershipRole.owner) s.memberships
        (IsKeyed-grow s.next_id s.memberships m),
    grow_twice s.next_id s.api_keys k,
    grow_twice s.next_id s.refresh_tokens r,
    grow_twice s.next_id s.reset_tokens x,
  );
  alone = λ all v s new (u, t, m, k, r, x). (
    IsKeyed-grow s.next_id s.users u,
    IsKeyed-create s.next_id v s.tenants t,
    IsKeyed-grow s.next_id s.memberships m,
    IsKeyed-grow s.next_id s.api_keys k,
    IsKeyed-grow s.next_id s.refresh_tokens r,
    IsKeyed-grow s.next_id s.reset_tokens x,
  );
  joining = λ v s other new there (u, t, m, k, r, x). (
    IsKeyed-grow s.next_id s.users u,
    IsKeyed-grow s.next_id s.tenants t,
    IsKeyed-create s.next_id v s.memberships m,
    IsKeyed-grow s.next_id s.api_keys k,
    IsKeyed-grow s.next_id s.refresh_tokens r,
    IsKeyed-grow s.next_id s.reset_tokens x,
  );
  token = λ v s (u, t, m, k, r, x). (
    IsKeyed-grow s.next_id s.users u,
    IsKeyed-grow s.next_id s.tenants t,
    IsKeyed-grow s.next_id s.memberships m,
    IsKeyed-grow s.next_id s.api_keys k,
    IsKeyed-create s.next_id v s.refresh_tokens r,
    IsKeyed-grow s.next_id s.reset_tokens x,
  );
  reset = λ v s (u, t, m, k, r, x). (
    IsKeyed-grow s.next_id s.users u,
    IsKeyed-grow s.next_id s.tenants t,
    IsKeyed-grow s.next_id s.memberships m,
    IsKeyed-grow s.next_id s.api_keys k,
    IsKeyed-grow s.next_id s.refresh_tokens r,
    IsKeyed-create s.next_id v s.reset_tokens x,
  );
  key = λ v s (u, t, m, k, r, x). (
    IsKeyed-grow s.next_id s.users u,
    IsKeyed-grow s.next_id s.tenants t,
    IsKeyed-grow s.next_id s.memberships m,
    IsKeyed-create s.next_id v s.api_keys k,
    IsKeyed-grow s.next_id s.refresh_tokens r,
    IsKeyed-grow s.next_id s.reset_tokens x,
  );
  users =
      λ id f s same (u, t, m, k, r, x). (IsKeyed-update s.next_id id f s.users u, t, m, k, r, x);
  tenants =
      λ id f s same (u, t, m, k, r, x). (u, IsKeyed-update s.next_id id f s.tenants t, m, k, r, x);
  keys = λ id f s same dead (u, t, m, k, r, x).
      (u, t, m, IsKeyed-update s.next_id id f s.api_keys k, r, x);
  revoke_many = λ g s (u, t, m, k, r, x).
      (u, t, m, k, IsKeyed-update_many s.next_id g revoke_token s.refresh_tokens r, x);
  revoke = λ id s (u, t, m, k, r, x).
      (u, t, m, k, IsKeyed-update s.next_id id revoke_token s.refresh_tokens r, x);
  spend_many = λ g s (u, t, m, k, r, x).
      (u, t, m, k, r, IsKeyed-update_many s.next_id g use_reset s.reset_tokens x);
  spend = λ id s (u, t, m, k, r, x).
      (u, t, m, k, r, IsKeyed-update s.next_id id use_reset s.reset_tokens x);
}

pub run-HasKeys :
    (env : Env) (calls : List Call) (s : Accounts) → HasKeys s → HasKeys (run env calls s)
run-HasKeys env calls s h = run_keeps HasKeys HasKeys-IsClosed env calls s h
