-- ===== src/Accounts/Calls/Kept/Tokens.antt =====
-- The calls about refresh tokens keep what the writes keep.
use meterplex.Prelude.{Bool, ℕ, not, Bool-cases, ltb, inl, inr, ◌&&◌}
use meterplex.Prelude.Service.{
  Keeps, Keeps-bind, Keeps-gets, Keeps-or_throw, Keeps-modify, Keeps-pure, Keeps-throw,
  Keeps-throw_if, modify, or_throw, gets, throw_if,
}
use meterplex.Text.{Text}
use meterplex.Accounts.State.{
  Accounts, RefreshToken, JwtPayload, Env, record_not_found, token_invalid_or_expired,
  refresh_token_expired, refresh_token_revoked,
}
use meterplex.Accounts.Rows.{has_token, find_token, draw, create_token}
use meterplex.Accounts.Tokens.{
  generate_tokens, revoke_all_user_refresh_tokens, logout, logout_all, rotate, use_token, refresh,
  is_live, revoke_row, revoke_live, revoke_hash, stored_of, tokens_of, hash_token,
}
use meterplex.Accounts.Calls.Closed.{IsClosed, draw-Keeps, create_token-Keeps}

module _ {every : Bool} (P : Accounts → Type 0) (c : IsClosed every P) (env : Env) where
  pub generate_tokens-Keeps :
      (user : ℕ) (email : Text) (now : ℕ) → Keeps P (generate_tokens env user email now)
  unfolding generate_tokens
  generate_tokens-Keeps user email now = Keeps-bind P draw _ (draw-Keeps P c) (λ d.
      Keeps-bind P (create_token (stored_of env user email now d)) _
        (create_token-Keeps P c (stored_of env user email now d))
        (λ id. Keeps-pure P (tokens_of env user email now d)))

  revoke_all-Keeps : (user : ℕ) → Keeps P (revoke_all_user_refresh_tokens user)
  unfolding revoke_all_user_refresh_tokens
  revoke_all-Keeps user = Keeps-modify P (revoke_live user) (c.revoke_many (is_live user))

  pub logout_all-Keeps : (user : ℕ) → Keeps P (logout_all user)
  unfolding logout_all
  logout_all-Keeps user = revoke_all-Keeps user

  pub logout-Keeps : (token : Text) → Keeps P (logout env token)
  unfolding logout
  logout-Keeps token =
      Keeps-modify P (revoke_hash env (hash_token env token))
        (c.revoke_many (λ t. has_token (hash_token env token) t && not t.is_revoked))

  rotate-Keeps : (id : ℕ) (payload : JwtPayload) (now : ℕ) → Keeps P (rotate env id payload now)
  unfolding rotate
  rotate-Keeps id payload now =
      Keeps-bind P (modify (revoke_row id)) _ (Keeps-modify P (revoke_row id) (c.revoke id))
        (λ u. generate_tokens-Keeps payload.sub payload.email now)

  use_token-Keeps :
      (payload : JwtPayload) (now : ℕ) (row : ℕ × RefreshToken)
      → Keeps P (use_token env payload now row)
  unfolding use_token
  use_token-Keeps payload now (id, stored) = elim (Bool-cases stored.is_revoked) [
    | inl dead ↦ rw dead (
        Keeps-bind P (revoke_all_user_refresh_tokens payload.sub) _ (revoke_all-Keeps payload.sub)
          (λ u. Keeps-throw P refresh_token_revoked))
    | inr live ↦ rw live (
        Keeps-bind P (throw_if (ltb stored.expires_at now) refresh_token_expired) _
          (Keeps-throw_if P (ltb stored.expires_at now) refresh_token_expired)
          (λ u. rotate-Keeps id payload now))
  ]

  pub refresh-Keeps : (token : Text) (now : ℕ) → Keeps P (refresh env token now)
  unfolding refresh
  refresh-Keeps token now =
      Keeps-bind P (or_throw (env.verify_refresh token now) token_invalid_or_expired) _
        (Keeps-or_throw P (env.verify_refresh token now) token_invalid_or_expired)
        (λ payload.
          Keeps-bind P (gets (find_token (hash_token env token))) _
            (Keeps-gets P (find_token (hash_token env token)))
            (λ row.
              Keeps-bind P (or_throw row record_not_found) _ (Keeps-or_throw P row record_not_found)
                (λ stored. use_token-Keeps payload now stored)))
