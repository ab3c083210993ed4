-- ===== src/Accounts/Calls/Kept/Passwords.antt =====
-- Registration, login and the ways to set a password keep what the writes keep.
use meterplex.Prelude.{Bool, ℕ, not, Option, none, some, refl, ltb}
use meterplex.Prelude.Table
use meterplex.Prelude.Service.{
  Keeps, Keeps-bind, Keeps-gets, Keeps-or_throw, Keeps-modify, Keeps-pure, Keeps-throw_if,
  Keeps-transaction, Keeps-rethrow, KeepsOk-bind, transaction-KeepsOk, modify, or_throw, gets,
  throw_if, transaction, rethrow, ◌>>◌,
}
use meterplex.Text.{Text}
use meterplex.Accounts.State.{
  Accounts, User, PasswordResetToken, Env, record_not_found, invalid_credentials,
  invalid_reset_token, auth_user_not_found, inactive_account, reset_token_already_used,
  reset_token_expired, invalid_current_password,
}
use meterplex.Accounts.Rows.{find_user, find_reset, draw, create_user, create_reset, update_user}
use meterplex.Accounts.Tokens.{generate_tokens, is_live, revoke_live}
use meterplex.Accounts.Passwords.{
  Register, hash_password, register_error, create_account, register, check_password, login,
  issue_reset, reset_for, forgot_password, apply_reset, reset_password, replace_password,
  change_password, on_not_found, set_password, registered_user, registered_tenant, reset_of,
  mark_used, invalidate, is_unused,
}
use meterplex.Accounts.Calls.Closed.{
  IsClosed, draw-Keeps, create_user-Keeps, opening-KeepsOk, create_reset-Keeps, update_user-Keeps,
}
use meterplex.Accounts.Calls.Kept.Tokens.{generate_tokens-Keeps}

module _ {every : Bool} (P : Accounts → Type 0) (c : IsClosed every P) (env : Env) where
  pub hash_password-Keeps : (password : Text) → Keeps P (hash_password env password)
  unfolding hash_password
  hash_password-Keeps password =
      Keeps-bind P draw _ (draw-Keeps P c) (λ d. Keeps-pure P (env.bcrypt_hash d password 12))

  create_account-Keeps : (dto : Register) → Keeps P (create_account env dto)
  unfolding create_account
  create_account-Keeps dto = transaction-KeepsOk P _ (
      KeepsOk-bind P (hash_password env dto.password) _ (hash_password-Keeps dto.password) (λ hash.
        KeepsOk-bind P (create_user (registered_user env dto hash)) _
          (create_user-Keeps P c (registered_user env dto hash))
          (λ user.
            opening-KeepsOk P c (registered_tenant env dto) user (λ tenant. (user, tenant)))))

  pub register-Keeps : (dto : Register) (now : ℕ) → Keeps P (register env dto now)
  unfolding register
  register-Keeps dto now =
      Keeps-bind P (rethrow (register_error env) (create_account env dto)) _
        (Keeps-rethrow P (register_error env) (create_account env dto) (create_account-Keeps dto))
        (λ (user, tenant).
          Keeps-bind P (generate_tokens env user (env.to_lower_case dto.email) now) _
            (generate_tokens-Keeps P c env user (env.to_lower_case dto.email) now)
            (λ tokens. Keeps-pure P (tokens, user, tenant)))

  check_password-Keeps :
      (password : Text) (now : ℕ) (row : ℕ × User) → Keeps P (check_password env password now row)
  unfolding check_password
  check_password-Keeps password now (id, user) =
      Keeps-bind P (throw_if (not user.is_active) inactive_account) _
        (Keeps-throw_if P (not user.is_active) inactive_account)
        (λ u.
          Keeps-bind P
            (throw_if (not (env.bcrypt_compare password user.password_hash)) invalid_credentials) _
            (Keeps-throw_if P (not (env.bcrypt_compare password user.password_hash))
              invalid_credentials)
            (λ v.
              Keeps-bind P (generate_tokens env id user.email now) _
                (generate_tokens-Keeps P c env id user.email now)
                (λ tokens. Keeps-pure P (tokens, id))))

  pub login-Keeps : (email password : Text) (now : ℕ) → Keeps P (login env email password now)
  unfolding login
  login-Keeps email password now =
      Keeps-bind P (gets (find_user (env.to_lower_case email))) _
        (Keeps-gets P (find_user (env.to_lower_case email)))
        (λ row.
          Keeps-bind P (or_throw row invalid_credentials) _
            (Keeps-or_throw P row invalid_credentials)
            (λ user. check_password-Keeps password now user))

  issue_reset-Keeps : (user now : ℕ) → Keeps P (issue_reset env user now)
  unfolding issue_reset
  issue_reset-Keeps user now =
      Keeps-bind P (modify (invalidate user)) _
        (Keeps-modify P (invalidate user) (c.spend_many (is_unused user)))
        (λ u. Keeps-bind P draw _ (draw-Keeps P c) (λ d.
          Keeps-bind P (create_reset (reset_of env user now d)) _
            (create_reset-Keeps P c (reset_of env user now d))
            (λ id. Keeps-pure P (env.random_bytes d 32))))

  reset_for-Keeps : (row : Option (ℕ × User)) (now : ℕ) → Keeps P (reset_for env row now)
  reset_for-Keeps none now = Keeps-pure P none
  reset_for-Keeps (some (id, user)) now =
      Keeps-bind P (issue_reset env id now) _ (issue_reset-Keeps id now)
        (λ token. Keeps-pure P (some token))

  pub forgot_password-Keeps : (email : Text) (now : ℕ) → Keeps P (forgot_password env email now)
  unfolding forgot_password
  forgot_password-Keeps email now =
      Keeps-bind P (gets (find_user (env.to_lower_case email))) _
        (Keeps-gets P (find_user (env.to_lower_case email))) (λ row. reset_for-Keeps row now)

  apply_reset-Keeps :
      (password : Text) (now : ℕ) (row : ℕ × PasswordResetToken)
      → Keeps P (apply_reset env password now row)
  unfolding apply_reset
  apply_reset-Keeps password now (id, reset) =
      Keeps-bind P (throw_if reset.is_used reset_token_already_used) _
        (Keeps-throw_if P reset.is_used reset_token_already_used)
        (λ u.
          Keeps-bind P (throw_if (ltb reset.expires_at now) reset_token_expired) _
            (Keeps-throw_if P (ltb reset.expires_at now) reset_token_expired)
            (λ v.
              Keeps-bind P (hash_password env password) _ (hash_password-Keeps password) (λ hash.
                Keeps-transaction P _ (
                  Keeps-bind P (update_user reset.user_id (set_password hash)) _
                    (update_user-Keeps P c reset.user_id (set_password hash) (λ w. refl))
                    (λ w.
                      Keeps-bind P (modify (mark_used id)) _
                        (Keeps-modify P (mark_used id) (c.spend id))
                        (λ x.
                          Keeps-modify P (revoke_live reset.user_id)
                            (c.revoke_many (is_live reset.user_id))))))))

  pub reset_password-Keeps :
      (token password : Text) (now : ℕ) → Keeps P (reset_password env token password now)
  unfolding reset_password
  reset_password-Keeps token password now = Keeps-rethrow P (on_not_found invalid_reset_token) _ (
      Keeps-bind P (gets (find_reset (env.sha256 token))) _
        (Keeps-gets P (find_reset (env.sha256 token)))
        (λ row.
          Keeps-bind P (or_throw row record_not_found) _ (Keeps-or_throw P row record_not_found)
            (λ reset. apply_reset-Keeps password now reset)))

  replace_password-Keeps :
      (id : ℕ) (current password : Text) (now : ℕ) (user : User)
      → Keeps P (replace_password env id current password now user)
  unfolding replace_password
  replace_password-Keeps id current password now user =
      Keeps-bind P
        (throw_if (not (env.bcrypt_compare current user.password_hash)) invalid_current_password) _
        (Keeps-throw_if P (not (env.bcrypt_compare current user.password_hash))
          invalid_current_password)
        (λ u. Keeps-bind P (hash_password env password) _ (hash_password-Keeps password) (λ hash.
          Keeps-bind P (transaction (update_user id (set_password hash) >> modify (revoke_live id)))
            _
            (Keeps-transaction P _ (
              Keeps-bind P (update_user id (set_password hash)) _
                (update_user-Keeps P c id (set_password hash) (λ w. refl))
                (λ w. Keeps-modify P (revoke_live id) (c.revoke_many (is_live id)))))
            (λ v. generate_tokens-Keeps P c env id user.email now)))

  pub change_password-Keeps :
      (id : ℕ) (current password : Text) (now : ℕ)
      → Keeps P (change_password env id current password now)
  unfolding change_password
  change_password-Keeps id current password now =
      Keeps-rethrow P (on_not_found auth_user_not_found) _ (
        Keeps-bind P (gets (λ s. Table.lookup id s.users)) _
          (Keeps-gets P (λ s. Table.lookup id s.users))
          (λ row.
            Keeps-bind P (or_throw row record_not_found) _ (Keeps-or_throw P row record_not_found)
              (λ user. replace_password-Keeps id current password now user)))
