-- ===== src/Accounts/Sessions/Change.antt =====
-- After a change of the password: one session is left, and the new password logs in.
use meterplex.Prelude.{ℕ, ◌+◌, true, none, some, [], ◌∷◌, ◌≡◌, refl, ap, ◌∙◌, arith, ==_refl}
use meterplex.Prelude.Table
use meterplex.Prelude.Table.{lookup-update, find_first_holds, find_many-create}
use meterplex.Prelude.Table.Many.{
  find_many-update_many, find_first-update_many-none, find_first-update_same,
}
use meterplex.Prelude.Table.Keyed.{lookup-find_first}
use meterplex.Prelude.Service.{
  ok, throw, modify, catch_ok, transaction, transaction_ok, bind_ok, ◌>>=◌, pure,
}
use meterplex.Text.{Text}
use meterplex.Accounts.State.{Accounts, User, RefreshToken, Exec, Env, auth_user_not_found}
use meterplex.Accounts.Rows.{
  has_email, has_token, find_user, find_token, update_user, create_token, draw, is_some,
}
use meterplex.Accounts.Rows.Done.{update_user_found, create_token_done}
use meterplex.Accounts.Tokens.{
  generate_tokens, revoke_token, is_live, revoke_live, tokens_of, stored_of,
}
use meterplex.Accounts.Passwords.{
  change_password, replace_password, check_password, login, hash_password, set_password,
  on_not_found,
}
use meterplex.Accounts.Calls.Closed.{with_token}
use meterplex.Accounts.Invariant.Keys.{HasKeys}

-- The store after a pair of tokens is issued
abbrev pub issued : Env → ℕ → Text → ℕ → Accounts → Accounts
issued env user email now s =
    with_token (record s { draws = s.draws + 1 }) (stored_of env user email now s.draws)

-- No token with the hash of the next one is stored: the random generator does not repeat.
abbrev pub IsFresh : Env → ℕ → Text → ℕ → Accounts → Type 0
IsFresh env user email now s = find_token (stored_of env user email now s.draws).token_hash s ≡ none

module _ (env : Env) (user : ℕ) (email : Text) (now : ℕ) (s : Accounts) where
  pub generate_tokens_done :
      (u : User)
      → Table.lookup user s.users ≡ some u
      → IsFresh env user email now s
      → generate_tokens env user email now s
        ≡ (ok (tokens_of env user email now s.draws), issued env user email now s)
  unfolding generate_tokens draw find_token
  generate_tokens_done u found fresh =
      let s' : Accounts = record s { draws = s.draws + 1 } in
      let t : RefreshToken = stored_of env user email now s.draws in
      bind_ok (create_token t) (λ id. pure (tokens_of env user email now s.draws)) {s = s'}
        {s' = with_token s' t} {a = s.next_id}
        (create_token_done s' t (ap is_some fresh) (ap is_some found))

-- The password of the user is replaced, and the tokens are revoked.
abbrev pub replaced : Env → ℕ → Text → Accounts → Accounts
replaced env id password s = revoke_live id (record s {
  draws = s.draws + 1;
  users = Table.update id (set_password (env.bcrypt_hash s.draws password 12)) s.users;
})

module _ (env : Env) (id : ℕ) (current password : Text) (now : ℕ) (u : User) (s : Accounts)
    (found : Table.lookup id s.users ≡ some u)
    (known : env.bcrypt_compare current u.password_hash ≡ true)
    (fresh : find_token (stored_of env id u.email now (s.draws + 1)).token_hash s ≡ none) where
  f : User → User
  f = set_password (env.bcrypt_hash s.draws password 12)

  changed_row : Table.lookup id (Table.update id f s.users) ≡ some (f u)
  unfolding f
  changed_row = cc (lookup-update id id f s.users, ==_refl id, found)

  still-IsFresh : IsFresh env id u.email now (replaced env id password s)
  unfolding find_token
  still-IsFresh =
      find_first-update_many-none
        (λ _. has_token (stored_of env id u.email now (s.draws + 1)).token_hash) (is_live id)
        revoke_token s.refresh_tokens (λ j v. refl) fresh

  replace : Exec (Unit {0})
  replace = update_user id f >>= λ _. modify (revoke_live id)

  replace_done : replace (record s { draws = s.draws + 1 }) ≡ (ok tt, replaced env id password s)
  unfolding replace f
  replace_done =
      let s1 : Accounts = record s { draws = s.draws + 1 } in
      bind_ok (update_user id f) (λ _. modify (revoke_live id)) {s = s1}
        {s' = record s1 { users = Table.update id f s1.users }} {a = f u}
        (update_user_found s1 id f u found)

  replaced_password : replace_password env id current password now u s ≡ (
    ok (tokens_of env id u.email now (s.draws + 1)),
    issued env id u.email now (replaced env id password s),
  )
  unfolding replace_password hash_password draw replace f
  replaced_password = rw known (
      bind_ok (transaction replace) (λ _. generate_tokens env id u.email now)
        {s = record s { draws = s.draws + 1 }} {s' = replaced env id password s} {a = tt}
        (transaction_ok replace {s = record s { draws = s.draws + 1 }}
          {s' = replaced env id password s} {a = tt} replace_done)
      ∙ generate_tokens_done env id u.email now (replaced env id password s) (f u) changed_row
          still-IsFresh)

  pub change_password_done : change_password env id current password now s ≡ (
    ok (tokens_of env id u.email now (s.draws + 1)),
    issued env id u.email now (replaced env id password s),
  )
  unfolding change_password
  change_password_done = rw found (
      catch_ok (replace_password env id current password now u) {s = s}
        {s' = issued env id u.email now (replaced env id password s)}
        (λ e. throw (on_not_found auth_user_not_found e))
        {a = tokens_of env id u.email now (s.draws + 1)} replaced_password)

  one_left :
      Table.find_many
        (λ _. is_live id)
        (issued env id u.email now (replaced env id password s)).refresh_tokens
      ≡ (s.next_id, stored_of env id u.email now (s.draws + 1)) ∷ []
  one_left =
      let t : RefreshToken = stored_of env id u.email now (s.draws + 1) in
      let none_left =
        find_many-update_many (is_live id) revoke_token s.refresh_tokens (λ v. ground arith) in
      rw
        (
          find_many-create (λ _. is_live id) s.next_id t
              (Table.update_many (is_live id) revoke_token s.refresh_tokens),
          none_left,
          ==_refl id,
        )
        refl

-- A stored user who gives the current password gets a pair of tokens, and the refresh token of that pair
-- is the only unrevoked one of the user, if the generator does not repeat a stored token.
pub change_leaves_one_session :
    (env : Env) (id : ℕ) (current password : Text) (now : ℕ) (u : User) (s : Accounts)
    → Table.lookup id s.users ≡ some u
    → env.bcrypt_compare current u.password_hash ≡ true
    → find_token (stored_of env id u.email now (s.draws + 1)).token_hash s ≡ none
    → ((change_password env id current password now s).0
        ≡ ok (tokens_of env id u.email now (s.draws + 1)))
      × (Table.find_many
            (λ _. is_live id)
            (change_password env id current password now s).1.refresh_tokens
          ≡ (s.next_id, stored_of env id u.email now (s.draws + 1)) ∷ [])
change_leaves_one_session env id current password now u s found known fresh =
    rw (change_password_done env id current password now u s found known fresh)
      (refl, one_left env id current password now u s found known fresh)

-- A user who is found, active, and whose password compares is logged in.
pub login_done :
    (env : Env) (email password : Text) (now id : ℕ) (u : User) (s : Accounts)
    → find_user (env.to_lower_case email) s ≡ some (id, u)
    → Table.lookup id s.users ≡ some u
    → u.is_active ≡ true
    → env.bcrypt_compare password u.password_hash ≡ true
    → IsFresh env id u.email now s
    → login env email password now s
      ≡ (ok (tokens_of env id u.email now s.draws, id), issued env id u.email now s)
unfolding login check_password
login_done env email password now id u s found row active known fresh =
    rw (found, active, known)
      (bind_ok (generate_tokens env id u.email now) (λ tokens. pure (tokens, id)) {s = s}
        {s' = issued env id u.email now s} {a = tokens_of env id u.email now s.draws}
        (generate_tokens_done env id u.email now s u row fresh))

-- After a change with the right current password, the new password logs the user of the address in,
-- if the user is active, every id was given out once, `bcrypt.compare` accepts what `bcrypt.hash`
-- made, and the generator does not repeat a stored token.
pub change_then_login :
    (env : Env) (id : ℕ) (email current password : Text) (now later : ℕ) (u : User) (s : Accounts)
    → ((salt : ℕ) (p : Text) (rounds : ℕ)
        → env.bcrypt_compare p (env.bcrypt_hash salt p rounds) ≡ true)
    → HasKeys s
    → find_user (env.to_lower_case email) s ≡ some (id, u)
    → u.is_active ≡ true
    → env.bcrypt_compare current u.password_hash ≡ true
    → find_token (stored_of env id u.email now (s.draws + 1)).token_hash s ≡ none
    → IsFresh env id u.email later (change_password env id current password now s).1
    → (login env email password later (change_password env id current password now s).1).0
      ≡ ok (tokens_of env id u.email later (s.draws + 1 + 1), id)
unfolding find_user
change_then_login env id email current password now later u s bcrypt keys user active known fresh
      next =
    let row : Table.lookup id s.users ≡ some u =
      lookup-find_first (λ _. has_email (env.to_lower_case email)) s.users id u keys.0.unique
        user in
    let done = change_password_done env id current password now u s row known fresh in
    let f : User → User = set_password (env.bcrypt_hash s.draws password 12) in
    let s' : Accounts = issued env id u.email now (replaced env id password s) in
    let next' : IsFresh env id u.email later s' = cc (done, next) in
    rw done (
      ap (λ o. o.0)
        (login_done env email password later id (f u) s'
          (find_first-update_same (has_email (env.to_lower_case email)) id f s.users u (λ w. refl)
            (find_first_holds (λ _. has_email (env.to_lower_case email)) s.users id u user) row
            user)
          (cc (lookup-update id id f s.users, ==_refl id, row)) active (bcrypt s.draws password 12)
          next'))
