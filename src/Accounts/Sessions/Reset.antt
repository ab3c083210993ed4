-- ===== src/Accounts/Sessions/Reset.antt =====
-- A reset token sets one password and ends every session of its user.
use meterplex.Prelude.{
  ℕ, ◌+◌, true, false, none, some, List, [], ◌≡◌, refl, sym, ap, ◌∙◌, Option-cases, inl, inr, ltb,
  arith,
}
use meterplex.Prelude.Table
use meterplex.Prelude.Table.{find_first_holds, sat-update_found}
use meterplex.Prelude.Table.Many.{find_many-update_many}
use meterplex.Prelude.Table.Keyed.{lookup-find_first}
use meterplex.Prelude.Service.{
  ok, err, rethrow, throw, modify, catch_ok, catch_err, transaction_ok, bind_ok, ◌>>=◌, ◌>>◌,
}
use meterplex.Text.{Text}
use meterplex.Accounts.State.{
  Accounts, User, PasswordResetToken, Exec, Env, record_not_found, reset_token_already_used,
  reset_token_expired, invalid_reset_token,
}
use meterplex.Accounts.Rows.{has_reset, find_reset, update_user}
use meterplex.Accounts.Rows.Done.{update_user_found}
use meterplex.Accounts.Tokens.{revoke_token, is_live, revoke_live}
use meterplex.Accounts.Passwords.{
  reset_password, apply_reset, hash_password, set_password, use_reset, mark_used, on_not_found,
}
use meterplex.Accounts.Calls.{Call, run}
use meterplex.Accounts.Calls.Kept.{run_keeps}
use meterplex.Accounts.Invariant.Keys.{HasKeys}
use meterplex.Accounts.Sessions.Revoked.{IsUsed, IsUsed-IsClosed}
use meterplex.Accounts.Sessions.Reuse.{is_ok}

-- The store after a reset of the user's password with the token `id`
abbrev pub after_reset : Env → Text → ℕ → ℕ → Accounts → Accounts
after_reset env password user id s = revoke_live user (
    mark_used id (record s {
      draws = s.draws + 1;
      users = Table.update user (set_password (env.bcrypt_hash s.draws password 12)) s.users;
    }))

module _ (env : Env) (password : Text) (now id : ℕ) (t : PasswordResetToken) (s : Accounts) where
  used_row :
      t.is_used ≡ true → apply_reset env password now (id, t) s ≡ (err reset_token_already_used, s)
  unfolding apply_reset
  used_row h = rw h refl

  module _ (fresh : t.is_used ≡ false) where
    expired_row :
        ltb t.expires_at now ≡ true
        → apply_reset env password now (id, t) s ≡ (err reset_token_expired, s)
    unfolding apply_reset
    expired_row h = rw (fresh, h) refl

    module _ (valid : ltb t.expires_at now ≡ false) where
      orphan_row :
          Table.lookup t.user_id s.users ≡ none
          → (apply_reset env password now (id, t) s).0 ≡ err record_not_found
      unfolding apply_reset hash_password
      orphan_row h = rw (fresh, valid, h) refl

      good_row :
          (u : User)
          → Table.lookup t.user_id s.users ≡ some u
          → apply_reset env password now (id, t) s
            ≡ (ok tt, after_reset env password t.user_id id s)
      unfolding apply_reset hash_password
      good_row u h =
          let s' : Accounts = record s { draws = s.draws + 1 } in
          let f : User → User = set_password (env.bcrypt_hash s.draws password 12) in
          let k : User → Exec (Unit {0}) =
            λ _. modify (mark_used id) >> modify (revoke_live t.user_id) in
          rw (fresh, valid)
            (transaction_ok (update_user t.user_id f >>= k) {s = s'}
              {s' = after_reset env password t.user_id id s} {a = tt}
              (bind_ok (update_user t.user_id f) k {s = s'}
                {s' = record s' { users = Table.update t.user_id f s.users }} {a = f u}
                (update_user_found s' t.user_id f u h)))

module _ (env : Env) (token password : Text) (now : ℕ) (s : Accounts) where
  unknown :
      find_reset (env.sha256 token) s ≡ none
      → is_ok (reset_password env token password now s).0 ≡ false
  unfolding reset_password
  unknown h = rw h refl

  known :
      (row : ℕ × PasswordResetToken)
      → find_reset (env.sha256 token) s ≡ some row
      → reset_password env token password now s
        ≡ rethrow (on_not_found invalid_reset_token) (apply_reset env password now row) s
  unfolding reset_password
  known row h = rw h refl

-- A used token sets no password.
pub refused :
    (env : Env) (token password : Text) (now : ℕ) (s : Accounts)
    → IsUsed (env.sha256 token) s
    → is_ok (reset_password env token password now s).0 ≡ false
unfolding IsUsed
refused env token password now s h = elim (Option-cases (find_reset (env.sha256 token) s)) [
  | inl absent ↦ unknown env token password now s absent
  | inr ((id, t), found) ↦
      let dead : t.is_used ≡ true = sym (ap (Table.sat (λ v. v.is_used)) found) ∙ h in
      rw
        (known env token password now s (id, t) found
          ∙ catch_err (apply_reset env password now (id, t)) {s = s} {s' = s}
              (λ e. throw (on_not_found invalid_reset_token e)) {x = reset_token_already_used}
              (used_row env password now id t s dead))
        refl
]

-- A reset with a token that is stored, unused and not expired, of a user who exists, gives the user
-- the new hash, uses the token and leaves no refresh token of the user unrevoked, if every id was
-- given out once.
pub reset_ends_sessions :
    (env : Env) (token password : Text) (now id : ℕ) (t : PasswordResetToken) (u : User)
    (s : Accounts)
    → HasKeys s
    → find_reset (env.sha256 token) s ≡ some (id, t)
    → t.is_used ≡ false
    → ltb t.expires_at now ≡ false
    → Table.lookup t.user_id s.users ≡ some u
    → (reset_password env token password now s ≡ (ok tt, after_reset env password t.user_id id s))
      × IsUsed (env.sha256 token) (reset_password env token password now s).1
      × (Table.find_many
            (λ _. is_live t.user_id)
            (reset_password env token password now s).1.refresh_tokens
          ≡ [])
unfolding IsUsed find_reset
reset_ends_sessions env token password now id t u s keys found fresh valid user =
    let done =
      known env token password now s (id, t) found
      ∙ catch_ok (apply_reset env password now (id, t)) {s = s}
          {s' = after_reset env password t.user_id id s}
          (λ e. throw (on_not_found invalid_reset_token e)) {a = tt}
          (good_row env password now id t s fresh valid u user) in
    let row : Table.lookup id s.reset_tokens ≡ some t =
      lookup-find_first (λ _. has_reset (env.sha256 token)) s.reset_tokens id t keys.5.unique
        found in
    rw done (
      refl,
      sat-update_found (has_reset (env.sha256 token)) (λ v. v.is_used) id t use_reset s.reset_tokens
          (λ w. refl) (λ w. refl)
          (find_first_holds (λ _. has_reset (env.sha256 token)) s.reset_tokens id t found) row
          found,
      find_many-update_many (is_live t.user_id) revoke_token s.refresh_tokens (λ v. ground arith),
    )

-- After a reset with a token that is stored, unused and not expired, of a user who exists, the token
-- is refused, whatever calls are made in between, if every id was given out once.
pub reset_once :
    (env : Env) (token password other : Text) (now later id : ℕ) (t : PasswordResetToken) (u : User)
    (calls : List Call) (s : Accounts)
    → HasKeys s
    → find_reset (env.sha256 token) s ≡ some (id, t)
    → t.is_used ≡ false
    → ltb t.expires_at now ≡ false
    → Table.lookup t.user_id s.users ≡ some u
    → is_ok
        (reset_password env token other later
          (run env calls (reset_password env token password now s).1)).0
      ≡ false
reset_once env token password other now later id t u calls s keys found fresh valid user =
    let s' : Accounts = (reset_password env token password now s).1 in
    refused env token other later (run env calls s') (
      run_keeps (IsUsed (env.sha256 token)) (IsUsed-IsClosed (env.sha256 token)) env calls s'
        (reset_ends_sessions env token password now id t u s keys found fresh valid user).1)
