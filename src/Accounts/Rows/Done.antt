-- ===== src/Accounts/Rows/Done.antt =====
-- The queries that go through: the row is there, or the unique and foreign keys hold.
use meterplex.Prelude.{ℕ, true, false, Option, none, some, ◌≡◌, refl, ap}
use meterplex.Prelude.Table
use meterplex.Prelude.Service.{ok, err, or_throw, pure, modify, ◌>>=◌, ◌>>◌}
use meterplex.Accounts.State.{Accounts, Error, User, RefreshToken, ApiKey, record_not_found}
use meterplex.Accounts.Rows.{
  find_token, find_key, is_some, update_user, update_key, create_token, create_key,
}
use meterplex.Accounts.Calls.Closed.{with_token, with_key}

module _ (s : Accounts) where
  pub update_user_found :
      (id : ℕ) (f : User → User) (u : User)
      → Table.lookup id s.users ≡ some u
      → update_user id f s ≡ (ok (f u), record s { users = Table.update id f s.users })
  unfolding update_user
  update_user_found id f u h =
      ap
        (λ (o : Option User).
          (or_throw o record_not_found >>= λ r.
          modify {S = Accounts} {E = Error} (λ s. record s { users = Table.update id f s.users })
          >> pure (f r))
            s)
        h

  pub update_key_found :
      (id : ℕ) (f : ApiKey → ApiKey) (k : ApiKey)
      → Table.lookup id s.api_keys ≡ some k
      → update_key id f s ≡ (ok (f k), record s { api_keys = Table.update id f s.api_keys })
  unfolding update_key
  update_key_found id f k h =
      ap
        (λ (o : Option ApiKey).
          (or_throw o record_not_found >>= λ r.
          modify {S = Accounts} {E = Error}
            (λ s. record s { api_keys = Table.update id f s.api_keys })
          >> pure (f r))
            s)
        h

  pub update_key_missing :
      (id : ℕ) (f : ApiKey → ApiKey)
      → Table.lookup id s.api_keys ≡ none
      → update_key id f s ≡ (err record_not_found, s)
  unfolding update_key
  update_key_missing id f h = rw h refl

  pub create_token_done :
      (t : RefreshToken)
      → is_some (find_token t.token_hash s) ≡ false
      → is_some (Table.lookup t.user_id s.users) ≡ true
      → create_token t s ≡ (ok s.next_id, with_token s t)
  unfolding create_token
  create_token_done t fresh known = rw (fresh, known) refl

  pub create_key_done :
      (k : ApiKey)
      → is_some (find_key k.key_hash s) ≡ false
      → is_some (Table.lookup k.created_by_user_id s.users) ≡ true
      → is_some (Table.lookup k.tenant_id s.tenants) ≡ true
      → create_key k s ≡ (ok s.next_id, with_key s k)
  unfolding create_key
  create_key_done k fresh user tenant = rw (fresh, user, tenant) refl
