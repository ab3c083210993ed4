-- ===== src/Accounts/Sessions/Reuse.antt =====
-- A refresh token is exchanged once; showing it again ends every session of its user.
use meterplex.Prelude.{
  ℕ, Bool, true, false, none, some, List, [], ◌≡◌, refl, sym, ap, ◌∙◌, Bool-cases, Option-cases,
  inl, inr, ltb, arith,
}
use meterplex.Prelude.Table
use meterplex.Prelude.Table.{find_first_holds, sat-update_found}
use meterplex.Prelude.Table.Many.{find_many-update_many}
use meterplex.Prelude.Table.Keyed.{lookup-find_first}
use meterplex.Prelude.Service.{Result, ok, err}
use meterplex.Text.{Text}
use meterplex.Accounts.State.{
  Accounts, RefreshToken, JwtPayload, Env, Error, record_not_found, refresh_token_revoked,
  refresh_token_expired,
}
use meterplex.Accounts.Rows.{has_token, find_token}
use meterplex.Accounts.Tokens.{
  Tokens, refresh, use_token, rotate, revoke_all_user_refresh_tokens, revoke_row, revoke_token,
  is_live, hash_token,
}
use meterplex.Accounts.Calls.{Call, run}
use meterplex.Accounts.Calls.Kept.{run_keeps}
use meterplex.Accounts.Calls.Kept.Tokens.{generate_tokens-Keeps}
use meterplex.Accounts.Invariant.Keys.{HasKeys}
use meterplex.Accounts.Sessions.Revoked.{IsRevoked, IsRevoked-IsClosed}

abbrev pub is_ok : {A : Type 0} → Result Error A → Bool
is_ok (ok a) = true
is_ok (err e) = false

module _ (env : Env) (token : Text) (now : ℕ) (s : Accounts) where
  -- How an exchange goes on, by what is signed and what is stored
  unsigned : env.verify_refresh token now ≡ none → is_ok (refresh env token now s).0 ≡ false
  unfolding refresh
  unsigned h = rw h refl

  module _ (payload : JwtPayload) (signed : env.verify_refresh token now ≡ some payload) where
    unknown :
        find_token (hash_token env token) s ≡ none
        → refresh env token now s ≡ (err record_not_found, s)
    unfolding refresh
    unknown h = rw (signed, h) refl

    known :
        (row : ℕ × RefreshToken)
        → find_token (hash_token env token) s ≡ some row
        → refresh env token now s ≡ use_token env payload now row s
    unfolding refresh
    known row h = rw (signed, h) refl

revoked_row :
    (env : Env) (payload : JwtPayload) (now id : ℕ) (t : RefreshToken) (s : Accounts)
    → t.is_revoked ≡ true
    → use_token env payload now (id, t) s
      ≡ (err refresh_token_revoked, (revoke_all_user_refresh_tokens payload.sub s).1)
unfolding use_token revoke_all_user_refresh_tokens
revoked_row env payload now id t s h = rw h refl

live_row :
    (env : Env) (payload : JwtPayload) (now id : ℕ) (t : RefreshToken) (s : Accounts)
    → t.is_revoked ≡ false
    → ltb t.expires_at now ≡ false
    → use_token env payload now (id, t) s ≡ rotate env id payload now s
unfolding use_token
live_row env payload now id t s h g = rw (h, g) refl

expired_row :
    (env : Env) (payload : JwtPayload) (now id : ℕ) (t : RefreshToken) (s : Accounts)
    → t.is_revoked ≡ false
    → ltb t.expires_at now ≡ true
    → use_token env payload now (id, t) s ≡ (err refresh_token_expired, s)
unfolding use_token
expired_row env payload now id t s h g = rw (h, g) refl

-- A token that is stored as revoked is not exchanged.
pub refused :
    (env : Env) (token : Text) (now : ℕ) (s : Accounts)
    → IsRevoked (hash_token env token) s
    → is_ok (refresh env token now s).0 ≡ false
unfolding IsRevoked
refused env token now s h = elim (Option-cases (env.verify_refresh token now)) [
  | inl bad ↦ unsigned env token now s bad
  | inr (payload, signed) ↦ elim (Option-cases (find_token (hash_token env token) s)) [
    | inl absent ↦ rw (unknown env token now s payload signed absent) refl
    | inr ((id, t), found) ↦
        let dead : t.is_revoked ≡ true = sym (ap (Table.sat (λ v. v.is_revoked)) found) ∙ h in
        rw
          (
            known env token now s payload signed (id, t) found,
            revoked_row env payload now id t s dead,
          )
          refl
  ]
]

-- The stored token is revoked by its exchange.
rotated :
    (env : Env) (hash : Text) (payload : JwtPayload) (now id : ℕ) (t : RefreshToken) (s : Accounts)
    → HasKeys s
    → find_token hash s ≡ some (id, t)
    → IsRevoked hash (rotate env id payload now s).1
unfolding rotate find_token IsRevoked
rotated env hash payload now id t s (users, tenants, members, keys, tokens, resets) found =
    let row : Table.lookup id s.refresh_tokens ≡ some t =
      lookup-find_first (λ _. has_token hash) s.refresh_tokens id t tokens.unique found in
    (generate_tokens-Keeps (IsRevoked hash) (IsRevoked-IsClosed hash) env payload.sub payload.email
        now).at
      (revoke_row id s)
      (sat-update_found (has_token hash) (λ v. v.is_revoked) id t revoke_token s.refresh_tokens
        (λ w. refl) (λ w. refl) (find_first_holds (λ _. has_token hash) s.refresh_tokens id t found)
        row found)

exchanged :
    (env : Env) (token : Text) (now : ℕ) (r : Tokens) (s : Accounts)
    → HasKeys s
    → (refresh env token now s).0 ≡ ok r
    → IsRevoked (hash_token env token) (refresh env token now s).1
exchanged env token now r s keys done = elim (Option-cases (env.verify_refresh token now)) [
  | inl bad ↦ absurd (cc (unsigned env token now s bad, ap is_ok done))
  | inr (payload, signed) ↦ elim (Option-cases (find_token (hash_token env token) s)) [
    | inl absent ↦
        absurd
          (cc (ap (λ o. is_ok o.0) (unknown env token now s payload signed absent), ap is_ok done))
    | inr ((id, t), found) ↦
        let step = known env token now s payload signed (id, t) found in
        elim (Bool-cases t.is_revoked) [
          | inl dead ↦ absurd (
              cc (
                ap (λ o. is_ok o.0) (step ∙ revoked_row env payload now id t s dead),
                ap is_ok done,
              ))
          | inr live ↦ elim (Bool-cases (ltb t.expires_at now)) [
            | inl past ↦ absurd (
                cc (
                  ap (λ o. is_ok o.0) (step ∙ expired_row env payload now id t s live past),
                  ap is_ok done,
                ))
            | inr valid ↦
                rw (step ∙ live_row env payload now id t s live valid)
                  (rotated env (hash_token env token) payload now id t s keys found)
          ]
        ]
  ]
]

-- A refresh token that was exchanged once is refused from then on, whatever calls are made in
-- between and whenever it is shown again, if every id was given out once before.
pub refresh_once :
    (env : Env) (token : Text) (now later : ℕ) (r : Tokens) (calls : List Call) (s : Accounts)
    → HasKeys s
    → (refresh env token now s).0 ≡ ok r
    → is_ok (refresh env token later (run env calls (refresh env token now s).1)).0 ≡ false
refresh_once env token now later r calls s keys done =
    refused env token later (run env calls (refresh env token now s).1) (
      run_keeps (IsRevoked (hash_token env token)) (IsRevoked-IsClosed (hash_token env token)) env
        calls (refresh env token now s).1 (exchanged env token now r s keys done))

no_live :
    (user : ℕ) (s : Accounts)
    → Table.find_many (λ _. is_live user) (revoke_all_user_refresh_tokens user s).1.refresh_tokens
      ≡ []
unfolding revoke_all_user_refresh_tokens
no_live user s =
    find_many-update_many (is_live user) revoke_token s.refresh_tokens (λ t. ground arith)

-- A revoked refresh token that is shown again, with a good signature, is refused as revoked, and
-- after that no refresh token of its user is left unrevoked.
pub reuse_revokes_all :
    (env : Env) (token : Text) (now : ℕ) (payload : JwtPayload) (s : Accounts)
    → env.verify_refresh token now ≡ some payload
    → IsRevoked (hash_token env token) s
    → ((refresh env token now s).0 ≡ err refresh_token_revoked)
      × (Table.find_many (λ _. is_live payload.sub) (refresh env token now s).1.refresh_tokens ≡ [])
unfolding IsRevoked
reuse_revokes_all env token now payload s signed h =
    elim (Option-cases (find_token (hash_token env token) s)) [
      | inl absent ↦ absurd (cc (h, ap (Table.sat (λ v. v.is_revoked)) absent))
      | inr ((id, t), found) ↦
          let dead : t.is_revoked ≡ true = sym (ap (Table.sat (λ v. v.is_revoked)) found) ∙ h in
          rw
            (known env token now s payload signed (id, t) found
              ∙ revoked_row env payload now id t s dead)
            (refl, no_live payload.sub s)
    ]
