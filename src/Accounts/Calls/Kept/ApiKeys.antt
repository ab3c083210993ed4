-- ===== src/Accounts/Calls/Kept/ApiKeys.antt =====
-- The calls about API keys keep what the writes keep.
use meterplex.Prelude.{Bool, ℕ, String, false, not, Option, ◌≡◌, refl, Bool-cases, inl, inr}
use meterplex.Prelude.Service.{
  Keeps, Keeps-bind, Keeps-gets, Keeps-or_throw, Keeps-pure, Keeps-throw, Keeps-throw_if,
  Keeps-rethrow, Keeps-catch, or_throw, gets, throw_if, rethrow,
}
use meterplex.Text.{Text}
use meterplex.Accounts.State.{
  Accounts, ApiKey, ApiKeyStatus, Env, record_not_found, api_key_not_found, api_key_expired,
}
use meterplex.Accounts.Rows.{find_key, draw, create_key, update_key}
use meterplex.Accounts.Passwords.{on_not_found}
use meterplex.Accounts.ApiKeys
use meterplex.Accounts.ApiKeys.{
  best_effort, find_owned, find_of_tenant, revoke, use_key, authenticate, set_status, touch,
  is_active, is_past, stored_key, raw_key, hash_key,
}
use meterplex.Accounts.Calls.Closed.{IsClosed, draw-Keeps, create_key-Keeps, update_key-Keeps}

module _ {every : Bool} (P : Accounts → Type 0) (c : IsClosed every P) where
  find_owned-Keeps : (id tenant : ℕ) → Keeps P (find_owned id tenant)
  unfolding find_owned
  find_owned-Keeps id tenant =
      Keeps-bind P (gets (find_of_tenant id tenant)) _ (Keeps-gets P (find_of_tenant id tenant))
        (λ row.
          Keeps-bind P (or_throw row record_not_found) _ (Keeps-or_throw P row record_not_found)
            (λ key. Keeps-pure P key.1))

  pub revoke-Keeps : (id tenant : ℕ) → Keeps P (revoke id tenant)
  unfolding revoke
  revoke-Keeps id tenant =
      Keeps-bind P (rethrow (on_not_found api_key_not_found) (find_owned id tenant)) _
        (Keeps-rethrow P (on_not_found api_key_not_found) (find_owned id tenant)
          (find_owned-Keeps id tenant))
        (λ k. update_key-Keeps P c id (set_status ApiKeyStatus.revoked) (λ j. refl) (λ j h. refl))

  best_effort-Keeps :
      (id : ℕ) (f : ApiKey → ApiKey)
      → ((k : ApiKey) → (f k).key_hash ≡ k.key_hash)
      → ((k : ApiKey) → is_active k.status ≡ false → is_active (f k).status ≡ false)
      → Keeps P (best_effort id f)
  unfolding best_effort
  best_effort-Keeps id f same dead =
      Keeps-catch P _ _
        (Keeps-bind P (update_key id f) _ (update_key-Keeps P c id f same dead)
          (λ k. Keeps-pure P tt))
        (λ e. Keeps-pure P tt)

  use_key-Keeps : (now : ℕ) (row : ℕ × ApiKey) → Keeps P (use_key now row)
  unfolding use_key
  use_key-Keeps now (id, key) =
      Keeps-bind P (throw_if (not (is_active key.status)) api_key_not_found) _
        (Keeps-throw_if P (not (is_active key.status)) api_key_not_found)
        (λ u. elim (Bool-cases (is_past key.expires_at now)) [
          | inl past ↦ rw past (
              Keeps-bind P (best_effort id (set_status ApiKeyStatus.expired)) _
                (best_effort-Keeps id (set_status ApiKeyStatus.expired) (λ k. refl) (λ k h. refl))
                (λ v. Keeps-throw P api_key_expired))
          | inr valid ↦ rw valid (
              Keeps-bind P (best_effort id (touch now)) _
                (best_effort-Keeps id (touch now) (λ k. refl) (λ k h. h))
                (λ v. Keeps-pure P (key.tenant_id, id)))
        ])

  module _ (env : Env) where
    pub authenticate-Keeps : (raw : Text) (now : ℕ) → Keeps P (authenticate env raw now)
    unfolding authenticate
    authenticate-Keeps raw now = Keeps-rethrow P (on_not_found api_key_not_found) _ (
        Keeps-bind P (gets (find_key (hash_key env raw))) _
          (Keeps-gets P (find_key (hash_key env raw)))
          (λ row.
            Keeps-bind P (or_throw row record_not_found) _ (Keeps-or_throw P row record_not_found)
              (λ key. use_key-Keeps now key)))

    pub key_created-Keeps :
        (name : String) (days : Option ℕ) (tenant user now : ℕ)
        → Keeps P (ApiKeys.create env name days tenant user now)
    unfolding ApiKeys.create
    key_created-Keeps name days tenant user now = Keeps-bind P draw _ (draw-Keeps P c) (λ d.
        Keeps-bind P (create_key (stored_key env name days tenant user now d)) _
          (create_key-Keeps P c (stored_key env name days tenant user now d))
          (λ id. Keeps-pure P (id, raw_key env d)))
