-- ===== src/Accounts/Sessions/Revoked.antt =====
-- A revoked refresh token stays revoked.
use meterplex.Prelude.{true, ◌≡◌, refl}
use meterplex.Prelude.Table
use meterplex.Prelude.Table.Many.{sat-create, sat-update_many, sat-update_keep}
use meterplex.Text.{Text}
use meterplex.Accounts.State.{Accounts}
use meterplex.Accounts.Rows.{has_token, find_token, has_reset, find_reset}
use meterplex.Accounts.Tokens.{revoke_token}
use meterplex.Accounts.Passwords.{use_reset}
use meterplex.Accounts.Calls.Closed.{IsClosed}

-- The refresh token with this hash is stored, and revoked.
unfoldable pub IsRevoked : Text → Accounts → Type 0
unfolding find_token
IsRevoked hash s = Table.sat (λ t. t.is_revoked) (find_token hash s) ≡ true

pub IsRevoked-IsClosed : (hash : Text) → IsClosed true (IsRevoked hash)
unfolding IsRevoked find_token
IsRevoked-IsClosed hash = record {
  draws = λ d s h. h;
  user = λ u s new h. h;
  opening = λ t u s new free h. h;
  alone = λ all t s new h. h;
  joining = λ m s other new there h. h;
  token =
      λ t s h. sat-create (λ _. has_token hash) (λ v. v.is_revoked) s.next_id t s.refresh_tokens h;
  reset = λ t s h. h;
  key = λ k s h. h;
  users = λ id f s same h. h;
  tenants = λ id f s same h. h;
  keys = λ id f s same dead h. h;
  revoke_many = λ g s h.
      sat-update_many (λ _. has_token hash) (λ v. v.is_revoked) g revoke_token s.refresh_tokens
        (λ j v. refl) (λ v k. refl) h;
  revoke = λ id s h.
      sat-update_keep (λ _. has_token hash) (λ v. v.is_revoked) id revoke_token s.refresh_tokens
        (λ j v. refl) (λ v k. refl) h;
  spend_many = λ g s h. h;
  spend = λ id s h. h;
}

-- The reset token with this hash is stored, and used.
unfoldable pub IsUsed : Text → Accounts → Type 0
unfolding find_reset
IsUsed hash s = Table.sat (λ t. t.is_used) (find_reset hash s) ≡ true

pub IsUsed-IsClosed : (hash : Text) → IsClosed true (IsUsed hash)
unfolding IsUsed find_reset
IsUsed-IsClosed hash = record {
  draws = λ d s h. h;
  user = λ u s new h. h;
  opening = λ t u s new free h. h;
  alone = λ all t s new h. h;
  joining = λ m s other new there h. h;
  token = λ t s h. h;
  reset = λ t s h. sat-create (λ _. has_reset hash) (λ v. v.is_used) s.next_id t s.reset_tokens h;
  key = λ k s h. h;
  users = λ id f s same h. h;
  tenants = λ id f s same h. h;
  keys = λ id f s same dead h. h;
  revoke_many = λ g s h. h;
  revoke = λ id s h. h;
  spend_many = λ g s h.
      sat-update_many (λ _. has_reset hash) (λ v. v.is_used) g use_reset s.reset_tokens
        (λ j v. refl) (λ v k. refl) h;
  spend = λ id s h.
      sat-update_keep (λ _. has_reset hash) (λ v. v.is_used) id use_reset s.reset_tokens
        (λ j v. refl) (λ v k. refl) h;
}
